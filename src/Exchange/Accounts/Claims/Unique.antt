-- ===== src/Exchange/Accounts/Claims/Unique.antt =====
-- About the claims of exchange/routes/accounts.py along sequences of requests.
use a2a_settlement.Base.{
  ℕ, ◌≡◌, refl, ◌∙◌, Bool, false, Option, none, some, [], ◌∷◌, ◌==◌, inl, inr, Bool-cases, arith,
}
use a2a_settlement.Table.{Table, modify, append}
use a2a_settlement.Exchange.Errors.{
  ok, Ensures-ok, Ensures-raise_if, Ensures-or_raise, Ensures-bind,
}
use a2a_settlement.Exchange.Models.{Account, GatewayClaim}
use a2a_settlement.Exchange.Accounts.Rows.{Bcrypt, Caller}
use a2a_settlement.Exchange.Accounts.Claims.{
  ClaimResponse, is_claim_of, first_claim, reactivate, release_claim, new_claim, put_claim,
  claim_agent, unclaim_agent,
}
use Prim.Native.String.{String}

-- No other row below is of the same gateway and agent: the unique index on the pair.
abbrev pub UniqueClaims : Table GatewayClaim → Type 0
UniqueClaims [] = Unit
UniqueClaims ((k, c) ∷ t) =
    (first_claim (is_claim_of c.gateway_id c.account_id) t ≡ none) × UniqueClaims t

-- An update that keeps the pair of every row keeps what is found, and uniqueness.
first_claim-modify :
    (g a k : ℕ) (f : GatewayClaim → GatewayClaim) (t : Table GatewayClaim)
    → ((c : GatewayClaim) → is_claim_of g a (f c) ≡ is_claim_of g a c)
    → first_claim (is_claim_of g a) t ≡ none
    → first_claim (is_claim_of g a) (modify k f t) ≡ none
unfolding first_claim modify
first_claim-modify g a k f [] same h = refl
first_claim-modify g a k f ((j, c) ∷ t) same h = elim (Bool-cases (is_claim_of g a c)) [
  | inl found ↦
      let clash : some (j, c) ≡ none = rw found at h in let impossible : ⊥ = cc in absurd impossible
  | inr other ↦
      let rest : first_claim (is_claim_of g a) t ≡ none = rw other at h in
      let other' : is_claim_of g a (f c) ≡ false = same c ∙ other in
      elim (Bool-cases (j == k)) [
        | inl here ↦ rw (here, other') rest
        | inr there ↦ rw (there, other) (first_claim-modify g a k f t same rest)
      ]
]

KeepsPair : (GatewayClaim → GatewayClaim) → Type 0
KeepsPair f =
    (c : GatewayClaim) → ((f c).gateway_id ≡ c.gateway_id) × ((f c).account_id ≡ c.account_id)

UniqueClaims-modify :
    (k : ℕ) (f : GatewayClaim → GatewayClaim) (t : Table GatewayClaim)
    → KeepsPair f
    → UniqueClaims t
    → UniqueClaims (modify k f t)
unfolding modify KeepsPair
UniqueClaims-modify k f [] same u = tt
UniqueClaims-modify k f ((j, c) ∷ t) same u = elim (Bool-cases (j == k)) [
  | inl here ↦ rw here ((rw ((same c).0, (same c).1) u.0, u.1))
  | inr there ↦ rw there (
      (
        first_claim-modify c.gateway_id c.account_id k f t (λ d. rw ((same d).0, (same d).1) refl)
            u.0,
        UniqueClaims-modify k f t same u.1,
      ))
]

first_claim-append :
    (g a k : ℕ) (d : GatewayClaim) (t : Table GatewayClaim)
    → is_claim_of g a d ≡ false
    → first_claim (is_claim_of g a) t ≡ none
    → first_claim (is_claim_of g a) (append k d t) ≡ none
unfolding first_claim append
first_claim-append g a k d [] other h = rw other refl
first_claim-append g a k d ((j, c) ∷ t) other h = elim (Bool-cases (is_claim_of g a c)) [
  | inl found ↦
      let clash : some (j, c) ≡ none = rw found at h in let impossible : ⊥ = cc in absurd impossible
  | inr further ↦ rw further (first_claim-append g a k d t other (rw further at h))
]

UniqueClaims-append :
    (k : ℕ) (d : GatewayClaim) (t : Table GatewayClaim)
    → first_claim (is_claim_of d.gateway_id d.account_id) t ≡ none
    → UniqueClaims t
    → UniqueClaims (append k d t)
unfolding first_claim append
UniqueClaims-append k d [] new u = (refl, tt)
UniqueClaims-append k d ((j, c) ∷ t) new u =
    elim (Bool-cases (is_claim_of d.gateway_id d.account_id c)) [
      | inl found ↦
          let clash : some (j, c) ≡ none = rw found at new in
          let impossible : ⊥ = cc in absurd impossible
      | inr other ↦ (
        first_claim-append c.gateway_id c.account_id k d t (ground (arith, other)) u.0,
        UniqueClaims-append k d t (rw other at new) u.1,
      )
    ]

put_claim-UniqueClaims :
    (now id gateway account : ℕ) (verified : Bool) (existing : Option (ℕ × GatewayClaim))
    (t : Table GatewayClaim)
    → first_claim (is_claim_of gateway account) t ≡ existing
    → UniqueClaims t
    → UniqueClaims (put_claim now id gateway account verified existing t).0
unfolding KeepsPair
put_claim-UniqueClaims now id gateway account verified none t new u =
    UniqueClaims-append id (new_claim now gateway account verified) t new u
put_claim-UniqueClaims now id gateway account verified (some (k, c)) t found u =
    UniqueClaims-modify k (reactivate verified) t (λ d. (refl, refl)) u

unclaim_agent-UniqueClaims :
    (account_id : ℕ) (current : Caller) (t : Table GatewayClaim)
    → UniqueClaims t
    → (t' : Table GatewayClaim) → unclaim_agent account_id current t ≡ ok t'
    → UniqueClaims t'
unfolding unclaim_agent KeepsPair
unclaim_agent-UniqueClaims account_id current t u =
    Ensures-or_raise _ _ _
      λ found at. Ensures-ok _ _ (UniqueClaims-modify found.0 release_claim t (λ c. (refl, refl)) u)

module _ (R : Type 0) (bc : Bcrypt) where
  -- A claim, or the release of one, that succeeds.
  pub data ClaimStep : Table GatewayClaim → Table GatewayClaim → Type 0 where
    claimed :
        (now id account_id : ℕ) (key : Option String) (current : Caller)
        (accounts : Table (Account R)) (t : Table GatewayClaim)
        (r : Table GatewayClaim × ClaimResponse)
        → claim_agent bc now id account_id key current accounts t ≡ ok r
        → ClaimStep t r.0
    released :
        (account_id : ℕ) (current : Caller) (t t' : Table GatewayClaim)
        → unclaim_agent account_id current t ≡ ok t'
        → ClaimStep t t'

  pub data ClaimHistory : Table GatewayClaim → Table GatewayClaim → Type 0 where
    start : (t : Table GatewayClaim) → ClaimHistory t t
    next :
        {t t' t'' : Table GatewayClaim} → ClaimHistory t t' → ClaimStep t' t'' → ClaimHistory t t''

  claim_agent-UniqueClaims :
      (now id account_id : ℕ) (key : Option String) (current : Caller)
      (accounts : Table (Account R)) (t : Table GatewayClaim)
      → UniqueClaims t
      → (r : Table GatewayClaim × ClaimResponse)
      → claim_agent bc now id account_id key current accounts t ≡ ok r
      → UniqueClaims r.0
  unfolding claim_agent
  claim_agent-UniqueClaims now id account_id key current accounts t u =
      Ensures-raise_if _ _ _ λ gateway. Ensures-or_raise _ _ _ λ agent at.
        Ensures-raise_if _ _ _ λ of_agent. Ensures-raise_if _ _ _ λ unclaimed.
          Ensures-bind _ _ λ verified checked.
            Ensures-ok _ _ (put_claim-UniqueClaims now id current.id account_id verified _ t refl u)

  ClaimStep-UniqueClaims :
      {t t' : Table GatewayClaim} → ClaimStep t t' → UniqueClaims t → UniqueClaims t'
  ClaimStep-UniqueClaims (ClaimStep.claimed now id account_id key current accounts t r run) u =
      claim_agent-UniqueClaims now id account_id key current accounts t u r run
  ClaimStep-UniqueClaims (ClaimStep.released account_id current t t' run) u =
      unclaim_agent-UniqueClaims account_id current t u t' run

  -- Along any sequence of claims and releases of claims that succeed, no two rows of claims are
  -- of the same gateway and agent, if none were before.
  pub ClaimHistory-UniqueClaims :
      {t t' : Table GatewayClaim} → ClaimHistory t t' → UniqueClaims t → UniqueClaims t'
  ClaimHistory-UniqueClaims (ClaimHistory.start t) u = u
  ClaimHistory-UniqueClaims (ClaimHistory.next run step) u =
      ClaimStep-UniqueClaims step (ClaimHistory-UniqueClaims run u)
