-- ===== src/Exchange/Accounts/Auth/Rotation.antt =====
-- About `rotate_key` of exchange/routes/accounts.py and the keys that exchange/auth.py takes after it.
use a2a_settlement.Base.{
  ℕ, ◌+◌, ◌≤◌, ◌<◌, ◌≡◌, ◌≢◌, ◌⊎◌, refl, sym, ◌∙◌, ap, Bool, true, false, Option, some, inl, inr,
  ◌&&◌, not, lt→ltb, le→ltb, or_true, and_false,
}
use a2a_settlement.Int.{ℤ}
use a2a_settlement.Table.{Table, find, modify}
use a2a_settlement.Table.Laws.{find-modify_self, find-modify_ne}
use a2a_settlement.Table.Keys.{UniqueKeys, UniqueKeys-modify}
use a2a_settlement.Exchange.Errors.{
  Ensures-ok, Ensures-or_raise, ok, raise_if, or_raise, ◌>>=◌, ◌>>◌,
}
use a2a_settlement.Exchange.Models.{Account}
use a2a_settlement.Exchange.Config.{minutes}
use a2a_settlement.Exchange.Accounts.Rows.{AccountSettings, Bcrypt, Caller}
use a2a_settlement.Exchange.Accounts.Register.{new_api_key}
use a2a_settlement.Exchange.Accounts.Keys.{RotateKeyResponse, rekey, rotate_key}
use a2a_settlement.Exchange.Accounts.Auth.{
  AuthRequest, can_sign_in, accepts, check_api_key, caller_of, presented_key, check_signature,
  authenticate_bot,
}
use a2a_settlement.Exchange.Accounts.Auth.SignIn.{first_match_only, authenticate_bot-Accepted}
use Prim.Native.String.{String}
use text.Mathlib.Text.{◌==◌ as str_eq}
use mathlib.Core.Option.{some-injective}

-- What bcrypt documents: a key matches its own hash.
pub record BcryptLaws (bc : Bcrypt) : Type 0 where
  pub checkpw-hashpw : (key salt : String) → bc.checkpw key (bc.hashpw key salt) ≡ some true

-- The key is the account's own, or its former one while the grace lasts.
abbrev pub IsGood : Bcrypt → ℕ → String → ℕ → String → ℕ → String → Type 0
IsGood bc grace former now new t key =
    (key ≡ new)
    ⊎ ((bc.checkpw key former ≡ some true) × (str_eq former "" ≡ false) × (t < now + grace))

-- The hash of the key that a rotation hands out.
abbrev pub hash_of : Bcrypt → String → String → String
hash_of bc token salt = bc.hashpw (new_api_key token) salt

check_api_key-answer :
    (bc : Bcrypt) (key hash : String) (b : Bool)
    → bc.checkpw key hash ≡ some b
    → check_api_key bc key hash ≡ b
check_api_key-answer bc key hash b e = rw (e, check_api_key) refl

module _ {R : Type 0} (s : AccountSettings) (bc : Bcrypt) (parse_int : String → Option ℤ)
    (hmac_sha256 : String → String → String) (strip : String → String) where
  rotated_row :
      (now : ℕ) (token salt : String) (current : Caller) (accounts : Table (Account R))
      → (r : Table (Account R) × RotateKeyResponse)
      → rotate_key s bc now token salt current accounts ≡ ok r
      → (a : Account R) × (find current.id accounts ≡ some a)
        × (r.0 ≡ modify current.id (rekey now (hash_of bc token salt)) accounts)
        × (find current.id r.0 ≡ some (rekey now (hash_of bc token salt) a))
  unfolding rotate_key
  rotated_row now token salt current accounts = Ensures-or_raise _ _ _ λ a at.
      Ensures-ok _ _
        (a, at, refl, find-modify_self current.id (rekey now (hash_of bc token salt)) accounts a at)

  accepts_good :
      (now t : ℕ) (token salt key : String) (a : Account R)
      → BcryptLaws bc
      → IsGood bc
          (minutes s.key_rotation_grace_minutes)
          a.api_key_hash
          now
          (new_api_key token)
          t
          key
      → accepts bc
          (minutes s.key_rotation_grace_minutes)
          key
          t
          (rekey now (hash_of bc token salt) a)
        ≡ true
  accepts_good now t token salt key a laws (inl own) =
      let own_key : check_api_key bc key (hash_of bc token salt) ≡ true = rw own (
        check_api_key-answer bc (new_api_key token) _ true
          (laws.checkpw-hashpw (new_api_key token) salt)) in
      rw own_key refl
  accepts_good now t token salt key a laws (inr (former, there, recent)) =
      let former_key = check_api_key-answer bc key a.api_key_hash true former in
      rw (there, lt→ltb _ _ recent, former_key)
        (or_true (check_api_key bc key (hash_of bc token salt)))

  retired_key :
      (now t : ℕ) (token salt key : String) (a : Account R)
      → bc.checkpw key (hash_of bc token salt) ≡ some false
      → now + minutes s.key_rotation_grace_minutes ≤ t
      → accepts bc
          (minutes s.key_rotation_grace_minutes)
          key
          t
          (rekey now (hash_of bc token salt) a)
        ≡ false
  retired_key now t token salt key a other late =
      rw
        (
          check_api_key-answer bc key (hash_of bc token salt) false other,
          le→ltb t (now + minutes s.key_rotation_grace_minutes) late,
        )
        (and_false (not (str_eq a.api_key_hash "")))

  -- On a database that keeps the offsets of instants, where bcrypt matches a key with its own
  -- hash and account ids are unique, after a rotation of an account that may sign in, a request
  -- that presents the new key, or the former one within the grace, and passes the check of
  -- signatures is signed in as the account, if no other account takes that key.
  pub rotate_key_signs_in :
      (now t : ℕ) (token salt key : String) (current : Caller) (accounts : Table (Account R))
      (a : Account R) (rq : AuthRequest) (r : Table (Account R) × RotateKeyResponse)
      → s.aware ≡ true
      → BcryptLaws bc
      → UniqueKeys accounts
      → find current.id accounts ≡ some a
      → can_sign_in a.status ≡ true
      → rotate_key s bc now token salt current accounts ≡ ok r
      → IsGood bc
          (minutes s.key_rotation_grace_minutes)
          a.api_key_hash
          now
          (new_api_key token)
          t
          key
      → presented_key s bc parse_int hmac_sha256 strip rq ≡ ok key
      → check_signature s bc parse_int hmac_sha256 strip t key rq ≡ ok tt
      → ((j : ℕ) (b : Account R)
          → find j accounts ≡ some b
          → j ≢ current.id
          → accepts bc (minutes s.key_rotation_grace_minutes) key t b ≡ false)
      → authenticate_bot s bc parse_int hmac_sha256 strip t rq r.0
        ≡ ok (caller_of bc (minutes s.key_rotation_grace_minutes) current.id a)
  unfolding authenticate_bot ◌>>=◌ ◌>>◌ or_raise raise_if
  rotate_key_signs_in now t token salt key current accounts a rq r aware laws keys at status run
        good shown signed others =
      let grace = minutes s.key_rotation_grace_minutes in
      let (b, atb, written, atb') = rotated_row now token salt current accounts r run in
      let same : b ≡ a = some-injective _ _ (sym atb ∙ at) in
      let at' : find current.id r.0 ≡ some (rekey now (hash_of bc token salt) a) =
        atb' ∙ ap (λ x. some (rekey now (hash_of bc token salt) x)) same in
      let taken = accepts_good now t token salt key a laws good in
      let hit : (can_sign_in a.status
            && accepts bc grace key t (rekey now (hash_of bc token salt) a))
          ≡ true =
        rw (status) taken in
      let found =
        first_match_only bc grace key t current.id (rekey now (hash_of bc token salt) a) r.0 at' hit
          (λ j d other ne.
            others j d
              (sym (find-modify_ne j current.id (rekey now (hash_of bc token salt)) accounts ne)
                ∙ ap (find j) (sym written)
                ∙ other)
              ne)
          (rw written
            (UniqueKeys-modify current.id (rekey now (hash_of bc token salt)) accounts keys)) in
      rw (shown, signed, aware, found) refl

  -- With unique account ids, once the grace after a rotation has passed, no key but one that
  -- matches the new hash signs in as the account, be it the former one or an older one.
  pub rotate_key_retires :
      (now t : ℕ) (token salt key : String) (current c : Caller) (accounts : Table (Account R))
      (rq : AuthRequest) (r : Table (Account R) × RotateKeyResponse)
      → UniqueKeys accounts
      → rotate_key s bc now token salt current accounts ≡ ok r
      → now + minutes s.key_rotation_grace_minutes ≤ t
      → presented_key s bc parse_int hmac_sha256 strip rq ≡ ok key
      → bc.checkpw key (hash_of bc token salt) ≡ some false
      → authenticate_bot s bc parse_int hmac_sha256 strip t rq r.0 ≡ ok c
      → c.id ≢ current.id
  rotate_key_retires now t token salt key current c accounts rq r keys run late shown other
        signed_in same_id =
      let grace = minutes s.key_rotation_grace_minutes in
      let (a, at, written, at') = rotated_row now token salt current accounts r run in
      let keys' : UniqueKeys r.0 =
        rw written
          (UniqueKeys-modify current.id (rekey now (hash_of bc token salt)) accounts keys) in
      let (key', shown', _, (b, found, named, status, taken)) =
        authenticate_bot-Accepted s bc parse_int hmac_sha256 strip t rq r.0 keys' c signed_in in
      let same_key : key' ≡ key = cc in
      let same : b ≡ rekey now (hash_of bc token salt) a =
        some-injective _ _ (sym found ∙ ap (λ i. find i r.0) same_id ∙ at') in
      let refused = retired_key now t token salt key a other late in
      let wrong : false ≡ true =
        sym refused
        ∙ sym (ap (λ x. accepts bc grace key t x) same)
        ∙ ap (λ x. accepts bc grace x t b) (sym same_key)
        ∙ taken in
      let impossible : ⊥ = cc in impossible
