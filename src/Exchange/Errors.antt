-- ===== src/Exchange/Errors.antt =====
-- How a request handler fails: FastAPI's `HTTPException` as a value, with the account freeze that
-- the spending guard commits in a session of its own before it raises.
use a2a_settlement.Base.{ℕ, Bool, true, false, Option, none, some, ◌≡◌, refl}
use mathlib.Core.Path.{subst}

-- One constructor for each `detail` text that the handlers raise with.
pub data Detail : Type 0 where
  amount_not_positive amount_too_large amount_out_of_range settle_to_self escrow_to_self : Detail
  account_not_found balance_not_found escrow_not_found provider_not_active : Detail
  reputation_too_low kya_level_too_low insufficient_balance not_permitted wrong_status : Detail
  account_frozen daily_limit_exceeded velocity_exceeded : Detail
  unknown_dependency duplicate_task upstream_not_released stake_too_small : Detail
  bad_resolution attestation_too_low window_closed bad_artifact : Detail
  recursion_limit bad_reference : Detail
  attestation_not_found signatures_required permanent_attestation : Detail
  missing_authorization bad_key_format signature_missing bad_signature unknown_key : Detail
  bad_invite_code name_taken did_taken bad_card card_signature_invalid card_not_found : Detail
  not_a_gateway not_an_agent already_claimed bad_agent_key hash_unreadable no_active_claim : Detail
  bad_did_key cannot_suspend_operator missing_field principal_not_found : Detail
  issuer_exists issuer_not_found operator_key_not_found naive_datetime : Detail

pub record HttpError : Type 0 where
  pub status_code : ℕ
  pub detail : Detail
  -- The account that `_freeze_account` froze, and until when.
  pub freeze : Option (ℕ × ℕ)

abbrev pub http : ℕ → Detail → HttpError
http c d = record { status_code = c; detail = d; freeze = none }

pub data Result (A : Type 0) : Type 0 where
  ok : A → Result A
  err : HttpError → Result A

infixl 5 ◌>>=◌ ◌>>◌
unfoldable pub ◌>>=◌ : {A B : Type 0} → Result A → (A → Result B) → Result B
ok a >>= f = f a
err e >>= f = err e

unfoldable pub ◌>>◌ : {B : Type 0} → Result (Unit {0}) → Result B → Result B
ok _ >> k = k
err e >> k = err e

-- `if c: raise e`
unfoldable pub raise_if : Bool → HttpError → Result (Unit {0})
raise_if true e = err e
raise_if false e = ok tt

-- `if x is None: raise e`
unfoldable pub or_raise : {A : Type 0} → Option A → HttpError → Result A
or_raise none e = err e
or_raise (some a) e = ok a

-- A property of every value that a handler can return.
abbrev pub Ensures : {A : Type 0} → Result A → (A → Type 0) → Type 0
Ensures {A} m P = (a : A) → m ≡ ok a → P a

-- The call returns a value.
abbrev pub Returns : {A : Type 0} → Result A → Type 0
Returns {A} m = (a : A) × (m ≡ ok a)

module _ {A B : Type 0} {P : B → Type 0} where
  pub Ensures-or_raise :
      (o : Option A) (e : HttpError) (k : A → Result B)
      → ((a : A) → o ≡ some a → Ensures (k a) P)
      → Ensures (or_raise o e >>= k) P
  unfolding ◌>>=◌ or_raise
  Ensures-or_raise none e k h b q = cc
  Ensures-or_raise (some a) e k h b q = h a refl b q

  pub Ensures-bind :
      (m : Result A) (k : A → Result B)
      → ((a : A) → m ≡ ok a → Ensures (k a) P)
      → Ensures (m >>= k) P
  unfolding ◌>>=◌
  Ensures-bind (ok a) k h b q = h a refl b q
  Ensures-bind (err e) k h b q = cc

module _ {B : Type 0} {P : B → Type 0} where
  pub Ensures-raise_if :
      (c : Bool) (e : HttpError) (k : Result B)
      → (c ≡ false → Ensures k P)
      → Ensures (raise_if c e >> k) P
  unfolding ◌>>◌ raise_if
  Ensures-raise_if true e k h b q = cc
  Ensures-raise_if false e k h b q = h refl b q

  pub Ensures-then :
      (m : Result (Unit {0})) (k : Result B) → (m ≡ ok tt → Ensures k P) → Ensures (m >> k) P
  unfolding ◌>>◌
  Ensures-then (ok tt) k h b q = h refl b q
  Ensures-then (err e) k h b q = cc

pub Ensures-ok : {B : Type 0} (P : B → Type 0) (b : B) → P b → Ensures (ok b) P
Ensures-ok P b h c q = let same : b ≡ c = cc in subst P same h

pub or_raise-ok :
    {A : Type 0} (o : Option A) (e : HttpError) (a : A) → or_raise o e ≡ ok a → o ≡ some a
unfolding or_raise
or_raise-ok none e a h = let impossible : ⊥ = cc in absurd impossible
or_raise-ok (some b) e a h = cc
