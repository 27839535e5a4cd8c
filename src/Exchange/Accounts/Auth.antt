-- ===== src/Exchange/Accounts/Auth.antt =====
-- exchange/auth.py: `authenticate_bot`. Both reads of the clock are one instant here. `int`,
-- `str.strip` and HMAC-SHA256 are parameters; a body's bytes are a text.
pub mod SignIn
pub mod Rotation
use a2a_settlement.Base.{
  ℕ, ◌+◌, ◌/◌, Bool, true, false, not, Option, none, some, [], ◌∷◌, ltb, ◌==◌, ◌&&◌, ◌||◌,
  if◌then◌else◌, is_some,
}
use a2a_settlement.Int.{ℤ, pos, pos_part, neg_part, ◌-ℤ◌}
use a2a_settlement.Table.{Table}
use a2a_settlement.Exchange.Errors.{
  Result, ok, http, raise_if, or_raise, ◌>>=◌, ◌>>◌, missing_authorization, bad_key_format,
  signature_missing, bad_signature, unknown_key, naive_datetime,
}
use a2a_settlement.Exchange.Models.{Account, AccountStatus}
use a2a_settlement.Exchange.Config.{minutes}
use a2a_settlement.Exchange.Accounts.Rows.{AccountSettings, Bcrypt, Caller}
use Prim.Native.Char.{code}
use Prim.Native.String.{String, ◌++◌}
use text.Mathlib.Text.{◌==◌ as str_eq, starts_with}

-- The headers that are read, and what is signed.
pub record AuthRequest : Type 0 where
  pub authorization : Option String
  pub signature : Option String
  pub timestamp : Option String
  pub method : String
  pub path : String
  pub body : String

abbrev pub can_sign_in : AccountStatus → Bool
can_sign_in AccountStatus.active = true
can_sign_in AccountStatus.suspended = false
can_sign_in AccountStatus.operator = true

-- `split(" ", 1)[1]`
unfoldable pub after_space : String → String
after_space String.[] = ""
after_space (String.◌∷◌ c s) = if code c == b' ' then s else after_space s

-- `_check_api_key`: an exception of bcrypt is a refusal.
abbrev pub check_api_key : Bcrypt → String → String → Bool
check_api_key bc key hash = elim (bc.checkpw key hash) [ some answer ↦ answer | none ↦ false ]

-- `abs(now_ts - ts)`
abbrev pub distance : ℕ → ℤ → ℕ
distance now ts = let d = pos now -ℤ ts in pos_part d + neg_part d

-- The former key is good while its grace lasts, where the instant of the rotation has its offset.
abbrev pub accepts_former : Bcrypt → ℕ → String → ℕ → Option String → Option ℕ → Bool
accepts_former bc grace key now (some hash) (some rotated) =
    not (str_eq hash "") && (ltb now (rotated + grace) && check_api_key bc key hash)
accepts_former bc grace key now _ _ = false

-- `acct.previous_api_key_hash and acct.key_rotated_at`
abbrev pub has_former : Option String → Option ℕ → Bool
has_former (some hash) (some rotated) = not (str_eq hash "")
has_former _ _ = false

-- The loop comes to subtract the instant of a rotation from the clock: no account before takes
-- the key, nor does this one as its own.
unfoldable pub meets_rotation : {R : Type 0} → Bcrypt → String → Table (Account R) → Bool
meets_rotation bc key [] = false
meets_rotation bc key ((k, a) ∷ t) =
    if can_sign_in a.status
    then (if check_api_key bc key a.api_key_hash
        then false
        else has_former a.previous_api_key_hash a.key_rotated_at || meets_rotation bc key t)
    else meets_rotation bc key t

module _ {R : Type 0} (bc : Bcrypt) (grace : ℕ) where
  -- The two tests of the loop, on one account.
  abbrev pub accepts : String → ℕ → Account R → Bool
  accepts key now a =
      check_api_key bc key a.api_key_hash
      || accepts_former bc grace key now a.previous_api_key_hash a.key_rotated_at

  abbrev pub caller_of : ℕ → Account R → Caller
  caller_of k a = record {
    id = k;
    bot_name = a.bot_name;
    developer_id = a.developer_id;
    status = a.status;
    account_type = a.account_type;
  }

  -- The loop over the accounts that are active or operators.
  unfoldable pub first_match : String → ℕ → Table (Account R) → Option Caller
  first_match key now [] = none
  first_match key now ((k, a) ∷ t) =
      if can_sign_in a.status && accepts key now a
      then some (caller_of k a)
      else first_match key now t

module _ (s : AccountSettings) (bc : Bcrypt) (parse_int : String → Option ℤ)
    (hmac_sha256 : String → String → String) (strip : String → String) where
  -- `_verify_signature`
  unfoldable pub verify_signature : ℕ → String → AuthRequest → String → String → Bool
  verify_signature now key rq signature timestamp = elim (parse_int timestamp) [
    | none ↦ false
    | some ts ↦
        not (ltb s.signature_max_age_seconds (distance (now / 1_000_000) ts))
        && str_eq (hmac_sha256 key (timestamp ++ (rq.method ++ (rq.path ++ rq.body)))) signature
  ]

  -- The key that the header presents.
  unfoldable pub presented_key : AuthRequest → Result String
  unfolding after_space
  presented_key rq = do
    header ← or_raise rq.authorization (http 401 missing_authorization)
    raise_if (not (starts_with header "Bearer ")) (http 401 missing_authorization)
    let key = strip (after_space header)
    raise_if (not (starts_with key "ate_")) (http 401 bad_key_format)
    ok key

  abbrev pub is_well_signed : ℕ → String → AuthRequest → Option String → Option String → Bool
  is_well_signed now key rq (some signature) (some timestamp) =
      verify_signature now key rq signature timestamp
  is_well_signed now key rq _ _ = false

  -- A signature is required by the settings, and is checked where there is one.
  unfoldable pub check_signature : ℕ → String → AuthRequest → Result (Unit {0})
  unfolding verify_signature
  check_signature now key rq = do
    let has_signature = is_some rq.signature && is_some rq.timestamp
    raise_if (s.require_signatures && not has_signature) (http 401 signature_missing)
    raise_if (has_signature && not (is_well_signed now key rq rq.signature rq.timestamp))
        (http 401 bad_signature)
    ok tt

  unfoldable pub authenticate_bot :
      {R : Type 0} → ℕ → AuthRequest → Table (Account R) → Result Caller
  unfolding presented_key check_signature first_match meets_rotation minutes
  authenticate_bot now rq accounts = do
    key ← presented_key rq
    check_signature now key rq
    raise_if (not s.aware && meets_rotation bc key accounts) (http 500 naive_datetime)
    or_raise (first_match bc (minutes s.key_rotation_grace_minutes) key now accounts)
        (http 401 unknown_key)
