-- ===== src/Exchange/Accounts/Auth/SignIn.antt =====
-- About `authenticate_bot` of exchange/auth.py with `rotate_key` and `suspend_account` of
-- exchange/routes/accounts.py.
use a2a_settlement.Base.{
  ℕ, ◌≡◌, ◌≢◌, refl, Bool, true, false, Option, some, [], ◌∷◌, ◌==◌, ◌&&◌, ◌||◌, inl, inr,
  Bool-cases, ==→eq, ==→ne, ==_refl, is_some, not, &&-both,
}
use mathlib.Core.Path.{subst}
use mathlib.Core.Option.{some-injective}
use a2a_settlement.Table.{Table, find}
use a2a_settlement.Table.Keys.{UniqueKeys, find-cons-some}
use a2a_settlement.Exchange.Models.{Account}
use a2a_settlement.Int.{ℤ}
use a2a_settlement.Exchange.Config.{minutes}
use a2a_settlement.Exchange.Errors.{
  ok, Ensures-ok, Ensures-raise_if, Ensures-bind, Ensures-then, or_raise-ok,
}
use a2a_settlement.Exchange.Accounts.Rows.{AccountSettings, Bcrypt, Caller}
use Prim.Native.String.{String}
use a2a_settlement.Exchange.Accounts.Auth.{
  AuthRequest, can_sign_in, accepts, caller_of, first_match, presented_key, is_well_signed,
  check_signature, authenticate_bot,
}

&&-false : (a b : Bool) → b ≡ false → (a && b) ≡ false
&&-false true b h = h
&&-false false b h = refl

module _ {R : Type 0} (bc : Bcrypt) (grace : ℕ) where
  -- The account may sign in, and takes the key.
  abbrev pub Accepted : String → ℕ → Table (Account R) → Caller → Type 0
  Accepted key now t c =
      (a : Account R) × (find c.id t ≡ some a)
      × (c ≡ caller_of bc grace c.id a)
      × (can_sign_in a.status ≡ true)
      × (accepts bc grace key now a ≡ true)

  -- The loop finds an account that may sign in and takes the key.
  first_match-Accepted :
      (key : String) (now : ℕ) (t : Table (Account R)) (c : Caller)
      → UniqueKeys t
      → first_match bc grace key now t ≡ some c
      → Accepted key now t c
  unfolding first_match find
  first_match-Accepted key now [] c keys e = let impossible : ⊥ = cc in absurd impossible
  first_match-Accepted key now ((k, a) ∷ t) c keys e =
      elim (Bool-cases (can_sign_in a.status && accepts bc grace key now a)) [
        | inl hit ↦
            let same : some (caller_of bc grace k a) ≡ some c = rw hit at e in
            let parts = &&-both _ _ hit in
            subst (Accepted key now ((k, a) ∷ t)) (some-injective _ _ same)
              (a, rw (==_refl k) refl, refl, parts.0, parts.1)
        | inr miss ↦
            let deeper : first_match bc grace key now t ≡ some c = rw miss at e in
            let (b, at, named, status, taken) = first_match-Accepted key now t c keys.1 deeper in
            (b, find-cons-some c.id k b a t keys.0 at, named, status, taken)
      ]

  -- An account that takes the key is found if no other does.
  pub first_match_only :
      (key : String) (now k : ℕ) (a : Account R) (t : Table (Account R))
      → find k t ≡ some a
      → (can_sign_in a.status && accepts bc grace key now a) ≡ true
      → ((j : ℕ) (b : Account R) → find j t ≡ some b → j ≢ k → accepts bc grace key now b ≡ false)
      → UniqueKeys t
      → first_match bc grace key now t ≡ some (caller_of bc grace k a)
  unfolding first_match find
  first_match_only key now k a [] at hit others keys = let impossible : ⊥ = cc in absurd impossible
  first_match_only key now k a ((j, b) ∷ t) at hit others keys = elim (Bool-cases (j == k)) [
    | inl here ↦
        let same : b ≡ a = some-injective _ _ (rw here at at) in rw (same, hit, ==→eq j k here) refl
    | inr there ↦
        let at' : find k t ≡ some a = rw there at at in
        let deaf : accepts bc grace key now b ≡ false =
          others j b (rw (==_refl j) refl) (==→ne j k there) in
        let missed : (can_sign_in b.status && accepts bc grace key now b) ≡ false =
          &&-false _ _ deaf in
        rw missed (
          first_match_only key now k a t at' hit
            (λ i d found. others i d (find-cons-some i j d b t keys.0 found)) keys.1)
  ]

implies_or : (a b : Bool) → (a && not b) ≡ false → (not a || b) ≡ true
implies_or true true h = refl
implies_or true false h = let impossible : ⊥ = cc in absurd impossible
implies_or false b h = refl

module _ (s : AccountSettings) (bc : Bcrypt) (parse_int : String → Option ℤ)
    (hmac_sha256 : String → String → String) (strip : String → String) where
  -- The signature is there if it is required, and is right if it is there.
  abbrev pub IsSigned : ℕ → String → AuthRequest → Type 0
  IsSigned now key rq =
      (not (is_some rq.signature && is_some rq.timestamp)
        || is_well_signed s bc parse_int hmac_sha256 strip now key rq rq.signature rq.timestamp)
      ≡ true

  check_signature-IsSigned :
      (now : ℕ) (key : String) (rq : AuthRequest)
      → (u : Unit {0}) → check_signature s bc parse_int hmac_sha256 strip now key rq ≡ ok u
      → ((not s.require_signatures || (is_some rq.signature && is_some rq.timestamp)) ≡ true)
        × IsSigned now key rq
  unfolding check_signature
  check_signature-IsSigned now key rq = Ensures-raise_if _ _ _ λ there.
      Ensures-raise_if _ _ _ λ right. Ensures-ok _ _ (implies_or _ _ there, implies_or _ _ right)

  -- With unique account ids, a request that is signed in presented a key in its header, and
  -- carried both signature headers if the settings require them; a signature that it carries is
  -- right. It is signed in as an account that may sign in and takes the key, as its own or as
  -- its former one within the grace.
  pub authenticate_bot-Accepted :
      {R : Type 0} (now : ℕ) (rq : AuthRequest) (accounts : Table (Account R))
      → UniqueKeys accounts
      → (c : Caller) → authenticate_bot s bc parse_int hmac_sha256 strip now rq accounts ≡ ok c
      → (key : String) × (presented_key s bc parse_int hmac_sha256 strip rq ≡ ok key)
        × (((not s.require_signatures || (is_some rq.signature && is_some rq.timestamp)) ≡ true)
            × IsSigned now key rq)
        × Accepted bc (minutes s.key_rotation_grace_minutes) key now accounts c
  unfolding authenticate_bot
  authenticate_bot-Accepted now rq accounts keys = Ensures-bind _ _ λ key shown.
      Ensures-then _ _ λ signed. Ensures-raise_if _ _ _ λ aware c found. (
        key,
        shown,
        check_signature-IsSigned now key rq tt signed,
        first_match-Accepted bc (minutes s.key_rotation_grace_minutes) key now accounts c keys
            (or_raise-ok _ _ c found),
      )
