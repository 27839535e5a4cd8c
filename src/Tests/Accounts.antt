-- ===== src/Tests/Accounts.antt =====
-- Keys, claims, registration and suspension on a small registry, with a readable stand-in for bcrypt.
use a2a_settlement.Base.{
  ℕ, ◌+◌, ◌≡◌, ◌≢◌, refl, true, false, Option, none, some, [], ◌∷◌, arith, inl, inr, Bool-cases,
  ◌==◌, sym, ==→eq,
}
use a2a_settlement.Int.{ℤ, pos}
use a2a_settlement.Table.{Table, find, modify, append}
use a2a_settlement.Table.Keys.{UniqueKeys}
use a2a_settlement.Tests.Data.{thousandths, ctx, trader, books, is_ok, value_of, ok-value_of}
use a2a_settlement.Exchange.Errors.{Result, ok, raise_if, or_raise, ◌>>=◌, ◌>>◌}
use a2a_settlement.Exchange.Models.{Account, AccountStatus, AccountType, GatewayClaim}
use a2a_settlement.Exchange.Config.{minutes}
use a2a_settlement.Exchange.Settlement.Create.{EscrowRequest, EscrowResponse, create_escrow}
use a2a_settlement.Exchange.Principals.{confidence_of}
use a2a_settlement.Exchange.Accounts.Rows.{AccountSettings, Bcrypt, Registry, Caller, some_account}
use a2a_settlement.Exchange.Accounts.Auth.{
  AuthRequest, accepts, caller_of, first_match, after_space, presented_key, check_signature,
  authenticate_bot,
}
use a2a_settlement.Exchange.Accounts.Auth.SignIn.{Accepted, IsSigned, authenticate_bot-Accepted}
use a2a_settlement.Exchange.Accounts.Auth.Rotation.{
  BcryptLaws, rotate_key_signs_in, rotate_key_retires,
}
use a2a_settlement.Exchange.Accounts.Register.{
  RegisterRequest, RegisterResponse, is_named, register,
}
use a2a_settlement.Exchange.Accounts.Register.Enrols.{Enrolled, IsLinked, register-Enrolled}
use a2a_settlement.Exchange.Accounts.Keys.{RotateKeyResponse, rotate_key}
use a2a_settlement.Exchange.Accounts.Claims.{ClaimResponse, first_claim, claim_agent, unclaim_agent}
use a2a_settlement.Exchange.Accounts.Claims.Unique.{
  UniqueClaims, ClaimStep, ClaimHistory, ClaimHistory-UniqueClaims,
}
use a2a_settlement.Exchange.Accounts.Admin.{suspend_account}
use a2a_settlement.Exchange.Accounts.Lockout.{
  suspend_account_locks_out, revoke_agent_identity_shuts_gate,
}
use a2a_settlement.Exchange.KyaAdmin.{RevokeResponse, revoke_agent_identity}
use Prim.Native.String.{String}
use text.Mathlib.Text.{◌==◌ as str_eq}
use text.Mathlib.TextEquality.{eq_iff}
use mathlib.Core.Option.{some-injective}
use mathlib.Core.Path.{subst}

abbrev pub account_settings : AccountSettings
account_settings = record {
  aware = true;
  starter_tokens = 100;
  default_daily_spend_limit = 0;
  invite_code = "";
  key_rotation_grace_minutes = 5;
  require_signatures = false;
  signature_max_age_seconds = 300;
}

-- A key is its own hash.
abbrev pub bcrypt : Bcrypt
bcrypt = record { hashpw = λ key salt. key; checkpw = λ key hash. some (str_eq key hash) }

bcrypt-laws : BcryptLaws bcrypt
bcrypt-laws = record { checkpw-hashpw = λ key salt. rw ((eq_iff key key).1 refl) refl }

abbrev parse_int : String → Option ℤ
parse_int t = none

abbrev hmac : String → String → String
hmac key message = key

abbrev strip : String → String
strip t = t

abbrev holder : String → Account ℕ
holder key = record trader { api_key_hash = key }

abbrev clerk : Account ℕ
clerk = record (holder "ate_three") { status = AccountStatus.operator }

abbrev portal : Account ℕ
portal = record (holder "ate_four") { account_type = AccountType.gateway }

abbrev staff : Table (Account ℕ)
staff = (3, clerk) ∷ (4, portal) ∷ []

abbrev accounts : Table (Account ℕ)
accounts = (1, holder "ate_one") ∷ (2, holder "ate_two") ∷ staff

abbrev caller : ℕ → AccountStatus → AccountType → Caller
caller k status account_type = record {
  id = k;
  bot_name = "trader";
  developer_id = "dev-1";
  status = status;
  account_type = account_type;
}

abbrev pub one : Caller
one = caller 1 AccountStatus.active AccountType.agent

abbrev two : Caller
two = caller 2 AccountStatus.active AccountType.agent

abbrev pub operator : Caller
operator = caller 3 AccountStatus.operator AccountType.agent

abbrev gateway : Caller
gateway = caller 4 AccountStatus.active AccountType.gateway

abbrev bearing : String → AuthRequest
bearing header = record {
  authorization = some header;
  signature = none;
  timestamp = none;
  method = "GET";
  path = "/v1/accounts";
  body = "";
}

distinct : UniqueKeys accounts
unfolding find
distinct = (refl, (refl, (refl, (refl, tt))))

abbrev grace : ℕ
grace = minutes 5

signs_in :
    authenticate_bot account_settings bcrypt parse_int hmac strip 7
      (bearing "Bearer ate_two")
      accounts
    ≡ ok two
unfolding authenticate_bot presented_key check_signature ◌>>=◌ ◌>>◌ raise_if or_raise after_space
    first_match
signs_in = refl

authenticate_bot-Accepted_example :
    (key : String) × (presented_key account_settings bcrypt parse_int hmac strip
        (bearing "Bearer ate_two")
      ≡ ok key)
    × ((true ≡ true)
        × IsSigned account_settings bcrypt parse_int hmac strip 7 key (bearing "Bearer ate_two"))
    × Accepted bcrypt grace key 7 accounts two
authenticate_bot-Accepted_example =
    authenticate_bot-Accepted account_settings bcrypt parse_int hmac strip 7
      (bearing "Bearer ate_two") accounts distinct two signs_in

-- Account 1 rotates its key at 1000.
abbrev rotation : Result (Table (Account ℕ) × RotateKeyResponse)
rotation = rotate_key account_settings bcrypt 1000 "new" "salt" one accounts

rotated : is_ok rotation ≡ true
unfolding rotate_key ◌>>=◌ or_raise find
rotated = refl

-- A row that does not take the former key, before rows that do not.
deaf_row :
    (j k : ℕ) (a b : Account ℕ) (t : Table (Account ℕ))
    → find j ((k, a) ∷ t) ≡ some b
    → accepts bcrypt grace "ate_one" 2000 a ≡ false
    → (find j t ≡ some b → accepts bcrypt grace "ate_one" 2000 b ≡ false)
    → accepts bcrypt grace "ate_one" 2000 b ≡ false
unfolding find
deaf_row j k a b t at deaf rest = elim (Bool-cases (k == j)) [
  | inl here ↦
      subst (λ x. accepts bcrypt grace "ate_one" 2000 x ≡ false)
        (some-injective a b (rw here at at)) deaf
  | inr there ↦ rest (rw there at at)
]

-- No other account takes the former key.
former_is_own :
    (j : ℕ) (b : Account ℕ)
    → find j accounts ≡ some b
    → j ≢ 1
    → accepts bcrypt grace "ate_one" 2000 b ≡ false
unfolding find
former_is_own j b at other = elim (Bool-cases (1 == j)) [
  | inl own ↦ absurd (other (sym (==→eq 1 j own)))
  | inr none_of_one ↦ deaf_row j 2 (holder "ate_two") b staff (rw none_of_one at at) refl λ at3.
      deaf_row j 3 clerk b ((4, portal) ∷ []) at3 refl λ at4.
        deaf_row j 4 portal b [] at4 refl
          λ at5. let clash : none ≡ some b = at5 in let impossible : ⊥ = cc in absurd impossible
]

rotate_key_signs_in_example :
    authenticate_bot account_settings bcrypt parse_int hmac strip 2000
      (bearing "Bearer ate_one")
      (value_of rotation rotated).0
    ≡ ok (caller_of bcrypt grace 1 (holder "ate_one"))
unfolding find presented_key check_signature ◌>>=◌ ◌>>◌ raise_if or_raise after_space minutes
rotate_key_signs_in_example =
    rotate_key_signs_in account_settings bcrypt parse_int hmac strip 1000 2000 "new" "salt"
      "ate_one" one accounts (holder "ate_one") (bearing "Bearer ate_one")
      (value_of rotation rotated) refl bcrypt-laws distinct refl refl (ok-value_of rotation rotated)
      (inr (refl, refl, omega arith)) refl refl former_is_own

late_sign_in :
    authenticate_bot account_settings bcrypt parse_int hmac strip
      (1000 + grace)
      (bearing "Bearer ate_two")
      (value_of rotation rotated).0
    ≡ ok two
unfolding authenticate_bot presented_key check_signature ◌>>=◌ ◌>>◌ raise_if or_raise after_space
    first_match rotate_key find modify
late_sign_in = refl

rotate_key_retires_example : two.id ≢ one.id
unfolding presented_key ◌>>=◌ ◌>>◌ raise_if or_raise after_space
rotate_key_retires_example =
    rotate_key_retires account_settings bcrypt parse_int hmac strip 1000 (1000 + grace) "new" "salt"
      "ate_two" one two accounts (bearing "Bearer ate_two") (value_of rotation rotated) distinct
      (ok-value_of rotation rotated) (omega arith) refl refl late_sign_in

abbrev lockout : Result (Table (Account ℕ))
lockout = suspend_account 2 operator accounts

suspended : is_ok lockout ≡ true
unfolding suspend_account ◌>>=◌ ◌>>◌ raise_if or_raise find
suspended = refl

abbrev to_two : EscrowRequest
to_two = record {
  provider_id = 2;
  amount = pos 200;
  task_id = none;
  ttl_minutes = none;
  depends_on = none;
  required_attestation_level = none;
}

abbrev opened : EscrowResponse
opened = record { escrow_id = 30; amount = 200; fee_amount = 5; total_held = 205; expires_at = 0 }

suspend_account_locks_out_example :
    (authenticate_bot account_settings bcrypt parse_int hmac strip 7
        (bearing "Bearer ate_two")
        (value_of lockout suspended)
      ≢ ok two)
    × (create_escrow ctx 1 30 to_two (record books { accounts = value_of lockout suspended })
        ≢ ok (books, opened))
suspend_account_locks_out_example =
    suspend_account_locks_out account_settings bcrypt parse_int hmac strip ctx 2 7 1 30 operator two
      accounts (value_of lockout suspended) (bearing "Bearer ate_two") to_two
      (record books { accounts = value_of lockout suspended }) (books, opened) distinct
      (ok-value_of lockout suspended) refl refl refl

abbrev revocation : Result (Table (Account ℕ) × RevokeResponse)
revocation = revoke_agent_identity 2 operator accounts

revoked : is_ok revocation ≡ true
unfolding revoke_agent_identity ◌>>=◌ ◌>>◌ raise_if or_raise find
revoked = refl

revoke_agent_identity_shuts_gate_example :
    create_escrow ctx 1 30 to_two (record books { accounts = (value_of revocation revoked).0 })
    ≢ ok (books, opened)
revoke_agent_identity_shuts_gate_example =
    revoke_agent_identity_shuts_gate 2 1 30 operator accounts (value_of revocation revoked) ctx
      to_two (record books { accounts = (value_of revocation revoked).0 }) (books, opened)
      (ok-value_of revocation revoked) refl (inr refl) refl (omega arith)

abbrev registering : RegisterRequest
registering = record {
  bot_name = "newcomer";
  developer_id = "dev-2";
  developer_name = "Dev";
  contact_email = "dev@example.org";
  description = none;
  skills = none;
  invite_code = none;
  daily_spend_limit = none;
  account_type = AccountType.agent;
}

abbrev registry : Registry ℕ
registry = record {
  db = record books { accounts = accounts };
  resolver = record { links = []; principals = []; developers = []; cache = [] };
  claims = [];
}

abbrev registration : Result (Registry ℕ × RegisterResponse ℕ)
registration =
    register thousandths account_settings bcrypt 7 "five" "salt" 5 70 registering registry

registered : is_ok registration ≡ true
unfolding register ◌>>=◌ ◌>>◌ raise_if or_raise find some_account
registered = refl

register-Enrolled_example :
    Enrolled 7 100 5
      (value_of registration registered).1.account
      registry.db
      (value_of registration registered).0.db
    × ((value_of registration registered).1.account.status ≡ AccountStatus.active)
    × ((value_of registration registered).1.account.kya_level_verified ≡ 0)
    × ((value_of registration registered).1.account.bot_name ≡ "newcomer")
    × (some_account (is_named "newcomer") accounts ≡ false)
    × ((value_of registration registered).1.account.api_key_hash
        ≡ bcrypt.hashpw (value_of registration registered).1.api_key "salt")
    × IsLinked thousandths account_settings 5 300
        (value_of registration registered).0.resolver.links
unfolding find confidence_of
register-Enrolled_example =
    register-Enrolled thousandths account_settings bcrypt 7 "five" "salt" 5 70 registering registry
      refl refl distinct (λ p. refl) (value_of registration registered)
      (ok-value_of registration registered)

-- The gateway claims agent 1, releases it, and claims it again.
abbrev first_claimed : Result (Table GatewayClaim × ClaimResponse)
first_claimed = claim_agent bcrypt 7 60 1 (some "ate_one") gateway accounts []

claims_once : is_ok first_claimed ≡ true
unfolding claim_agent ◌>>=◌ ◌>>◌ raise_if or_raise find first_claim
claims_once = refl

abbrev let_go : Result (Table GatewayClaim)
let_go = unclaim_agent 1 gateway (value_of first_claimed claims_once).0

lets_go : is_ok let_go ≡ true
unfolding unclaim_agent claim_agent ◌>>=◌ ◌>>◌ raise_if or_raise find first_claim append
lets_go = refl

abbrev second_claimed : Result (Table GatewayClaim × ClaimResponse)
second_claimed = claim_agent bcrypt 9 61 1 none gateway accounts (value_of let_go lets_go)

claims_twice : is_ok second_claimed ≡ true
unfolding unclaim_agent claim_agent ◌>>=◌ ◌>>◌ raise_if or_raise find first_claim modify append
claims_twice = refl

claims_run : ClaimHistory ℕ bcrypt [] (value_of second_claimed claims_twice).0
claims_run =
    ClaimHistory.next
      (ClaimHistory.next
        (ClaimHistory.next (ClaimHistory.start []) (
          ClaimStep.claimed 7 60 1 (some "ate_one") gateway accounts []
            (value_of first_claimed claims_once) (ok-value_of first_claimed claims_once)))
        (ClaimStep.released 1 gateway (value_of first_claimed claims_once).0
          (value_of let_go lets_go) (ok-value_of let_go lets_go)))
      (ClaimStep.claimed 9 61 1 none gateway accounts (value_of let_go lets_go)
        (value_of second_claimed claims_twice) (ok-value_of second_claimed claims_twice))

ClaimHistory-UniqueClaims_example : UniqueClaims (value_of second_claimed claims_twice).0
ClaimHistory-UniqueClaims_example = ClaimHistory-UniqueClaims ℕ bcrypt claims_run tt
