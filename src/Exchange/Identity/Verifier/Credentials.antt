-- ===== src/Exchange/Identity/Verifier/Credentials.antt =====
-- About `verify_credential` of exchange/identity/vc_verifier.py: what a valid credential shows, and
-- whether a card has one.
use a2a_settlement.Base.{
  ℕ, zero, suc, ◌≤◌, ◌<◌, ◌≡◌, refl, sym, ap, true, some, List, [], ◌∷◌, map, get_elem?, inl, inr,
  Bool-cases, Option-cases, arith, or_true,
}
use a2a_settlement.Exchange.Identity.Verifier.{
  VerificationStatus, valid, malformed, Credential, CredentialProof, Outside, is_valid, is_member,
  has_fields, has_proof_fields, text_of, parse_dt, check_issuer, check_dates, check_proof,
  credential_status, result_of, verify_credential, any_valid,
}
use Prim.Native.String.{String}
use mathlib.Core.Option.{some-injective}
use mathlib.Core.Path.{subst}

module _ (o : Outside) (trusted : List String) where
  -- Some attestation of the card is valid.
  abbrev pub HasValid : ℕ → List Credential → Type 0
  HasValid now cs =
      (i : ℕ) × (c : Credential) × (get_elem? cs i ≡ some c)
      × (credential_status o trusted now c ≡ valid)

  -- What a valid credential shows: its dates, as they are written, surround the instant, and its
  -- issuer is trusted.
  abbrev pub IsCurrent : ℕ → Credential → Type 0
  IsCurrent now c =
      (from : ℕ) × (till : ℕ) × (parse_dt o trusted c.valid_from ≡ some from)
      × (parse_dt o trusted c.expires_at ≡ some till)
      × (from ≤ now)
      × (now < till)
      × (is_member (text_of c.issuer) trusted ≡ true)

  check_issuer-trusted :
      (c : Credential) (p : CredentialProof)
      → check_issuer o trusted c p ≡ valid
      → is_member (text_of c.issuer) trusted ≡ true
  unfolding check_issuer
  check_issuer-trusted c p h = ground arith

  check_dates-current :
      (now from till : ℕ) (c : Credential) (p : CredentialProof)
      → check_dates o trusted now c p from till ≡ valid
      → (from ≤ now) × (now < till) × (is_member (text_of c.issuer) trusted ≡ true)
  unfolding check_dates
  check_dates-current now from till c p h = ground (arith, check_issuer-trusted c p)

  check_proof-IsCurrent :
      (now : ℕ) (c : Credential) (p : CredentialProof)
      → check_proof o trusted now c p ≡ valid
      → IsCurrent now c
  unfolding check_proof
  check_proof-IsCurrent now c p h = elim (Bool-cases (has_proof_fields p)) [
    | inr lacking ↦
        let bad : malformed ≡ valid = rw lacking at h in
        let impossible : ⊥ = cc in absurd impossible
    | inl there ↦ elim (Option-cases (parse_dt o trusted c.valid_from)) [
      | inl q ↦
          let bad : malformed ≡ valid = rw (there, q) at h in
          let impossible : ⊥ = cc in absurd impossible
      | inr (from, q) ↦ elim (Option-cases (parse_dt o trusted c.expires_at)) [
        | inl q' ↦
            let bad : malformed ≡ valid = rw (there, q, q') at h in
            let impossible : ⊥ = cc in absurd impossible
        | inr (till, q') ↦
            let dates : check_dates o trusted now c p from till ≡ valid = rw (there, q, q') at h in
            let (begun, open_still, known) = check_dates-current now from till c p dates in
            (from, till, q, q', begun, open_still, known)
      ]
    ]
  ]

  pub credential_status-IsCurrent :
      (now : ℕ) (c : Credential) → credential_status o trusted now c ≡ valid → IsCurrent now c
  unfolding credential_status
  credential_status-IsCurrent now c h = elim (Bool-cases (has_fields c)) [
    | inr lacking ↦
        let bad : malformed ≡ valid = rw lacking at h in
        let impossible : ⊥ = cc in absurd impossible
    | inl there ↦ elim (Option-cases c.proof) [
      | inl q ↦
          let bad : malformed ≡ valid = rw (there, q) at h in
          let impossible : ⊥ = cc in absurd impossible
      | inr (p, q) ↦ check_proof-IsCurrent now c p (rw (there, q) at h)
    ]
  ]

  is_valid-eq :
      (s : VerificationStatus) (c : Credential)
      → is_valid (result_of o trusted c s).status ≡ true
      → s ≡ valid
  is_valid-eq VerificationStatus.valid c h = refl
  is_valid-eq VerificationStatus.expired c h = let impossible : ⊥ = cc in absurd impossible
  is_valid-eq VerificationStatus.not_yet_valid c h = let impossible : ⊥ = cc in absurd impossible
  is_valid-eq VerificationStatus.invalid_signature c h =
      let impossible : ⊥ = cc in absurd impossible
  is_valid-eq VerificationStatus.untrusted_issuer c h = let impossible : ⊥ = cc in absurd impossible
  is_valid-eq VerificationStatus.issuer_unresolvable c h =
      let impossible : ⊥ = cc in absurd impossible
  is_valid-eq VerificationStatus.malformed c h = let impossible : ⊥ = cc in absurd impossible

  pub any_valid-HasValid :
      (now : ℕ) (cs : List Credential)
      → any_valid o trusted (map (verify_credential o trusted now) cs) ≡ true
      → HasValid now cs
  unfolding any_valid verify_credential
  any_valid-HasValid now [] h = let impossible : ⊥ = cc in absurd impossible
  any_valid-HasValid now (c ∷ cs) h =
      elim (Bool-cases
        (is_valid (result_of o trusted c (credential_status o trusted now c)).status)) [
          | inl good ↦ (0, c, refl, is_valid-eq _ c good)
          | inr bad ↦
              let (i, d, at, good) = any_valid-HasValid now cs (rw bad at h) in (suc i, d, at, good)
        ]

  pub HasValid-any_valid :
      (now : ℕ) (cs : List Credential) (i : ℕ) (c : Credential)
      → get_elem? cs i ≡ some c
      → credential_status o trusted now c ≡ valid
      → any_valid o trusted (map (verify_credential o trusted now) cs) ≡ true
  unfolding any_valid verify_credential
  HasValid-any_valid now [] i c at good = let impossible : ⊥ = cc in absurd impossible
  HasValid-any_valid now (d ∷ cs) zero c at good =
      let same : d ≡ c = some-injective _ _ at in
      let here : is_valid (verify_credential o trusted now d).status ≡ true =
        subst (λ x. is_valid (verify_credential o trusted now x).status ≡ true) (sym same)
          (ap (λ s. is_valid (result_of o trusted c s).status) good) in
      rw here refl
  HasValid-any_valid now (d ∷ cs) (suc i) c at good =
      rw (HasValid-any_valid now cs i c at good) (or_true _)
