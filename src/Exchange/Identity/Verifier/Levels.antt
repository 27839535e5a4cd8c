-- ===== src/Exchange/Identity/Verifier/Levels.antt =====
-- About `VCVerifier` of exchange/identity/vc_verifier.py: which level a card is verified at.
use a2a_settlement.Base.{
  ℕ, ◌≤◌, ◌≡◌, ◌↔◌, refl, sym, ◌∙◌, ap, true, false, Option, none, some, List, map, inl, inr, ltb,
  ◌==◌, Bool-cases, Option-cases, arith, ltb→le, le→ltb,
}
use a2a_settlement.Exchange.Identity.Verifier.{
  CardSignature, AgentCard, VerificationMethod, DidDocument, Outside, extract_verification_method,
  verify_credential, any_valid, verify_attestations, holds, verify_signature_of, verify_agent_card,
}
use Prim.Native.String.{String}
use mathlib.Core.Option.{some-injective}
use a2a_settlement.Exchange.Identity.Verifier.Credentials.{
  HasValid, any_valid-HasValid, HasValid-any_valid,
}

module _ (o : Outside) (trusted : List String) where
  -- The key that the card names, in the document of the card's own DID, verifies its signature.
  abbrev pub IsCardSigned : AgentCard → Type 0
  IsCardSigned card =
      (doc : DidDocument) × (o.resolve card.id ≡ some doc)
      × (sig : CardSignature) × (card.card_signature ≡ some sig)
      × (vm : VerificationMethod) × (extract_verification_method doc sig.verification_method
          ≡ some vm)
      × (holds o trusted card sig vm ≡ true)

  attested_level :
      (now : ℕ) (card : AgentCard)
      → (verify_attestations o trusted now card).kya_level_verified ≡ 2
        ↔ (2 ≤ card.kya_level) × HasValid o trusted now card.attestations
  unfolding verify_attestations
  attested_level now card = (
    λ h. elim (Bool-cases (ltb card.kya_level 2)) [
      | inl low ↦ let one : ◌≡◌ {A = ℕ} 1 2 = rw low at h in absurd (omega arith)
      | inr high ↦
          elim (Bool-cases
            (any_valid o trusted (map (verify_credential o trusted now) card.attestations))) [
              | inl found ↦
                  (ltb→le _ _ high, any_valid-HasValid o trusted now card.attestations found)
              | inr missing ↦
                  let one : ◌≡◌ {A = ℕ} 1 2 = rw (high, missing) at h in absurd (omega arith)
            ]
    ],
    λ (high, (i, c, at, good)).
        rw
          (
            le→ltb card.kya_level 2 high,
            HasValid-any_valid o trusted now card.attestations i c at good,
          )
          refl,
  )

  signed_level :
      (now : ℕ) (card : AgentCard) (doc : DidDocument) (given : Option CardSignature)
      → o.resolve card.id ≡ some doc
      → card.card_signature ≡ given
      → (verify_signature_of o trusted now card doc given).kya_level_verified ≡ 2
        ↔ (2 ≤ card.kya_level) × IsCardSigned card × HasValid o trusted now card.attestations
  unfolding verify_signature_of
  signed_level now card doc none at q = (
    λ h. absurd (omega arith),
    λ (high, (doc', at', sig, q', _, _, _), found).
        let clash : none ≡ some sig = sym q ∙ q' in let impossible : ⊥ = cc in absurd impossible,
  )
  signed_level now card doc (some sig) at q = (
    λ h. elim (Option-cases (extract_verification_method doc sig.verification_method)) [
      | inl q' ↦
          let none_given : ◌≡◌ {A = ℕ} 0 2 = rw (q', verify_signature_of) at h in
          absurd (omega arith)
      | inr (vm, q') ↦ elim (Bool-cases (holds o trusted card sig vm)) [
        | inr broken ↦
            let none_given : ◌≡◌ {A = ℕ} 0 2 = rw (q', verify_signature_of, broken) at h in
            absurd (omega arith)
        | inl right ↦
            let (high, found) =
              (attested_level now card).0 (rw (q', verify_signature_of, right) at h) in
            (high, (doc, at, sig, q, vm, q', right), found)
      ]
    ],
    λ (high, (doc', at', sig', q', vm, method, right), found).
        let same : doc' ≡ doc = some-injective _ _ (sym at' ∙ at) in
        let same_sig : sig' ≡ sig = some-injective _ _ (sym q' ∙ q) in
        let method' : extract_verification_method doc sig.verification_method ≡ some vm =
          ap (λ (x : DidDocument). extract_verification_method x sig.verification_method) (sym same)
          ∙ ap (λ (x : CardSignature). extract_verification_method doc' x.verification_method)
              (sym same_sig)
          ∙ method in
        let right' : holds o trusted card sig vm ≡ true =
          ap (λ x. holds o trusted card x vm) (sym same_sig) ∙ right in
        rw (method', verify_signature_of, right') ((attested_level now card).1 (high, found)),
  )

  -- A card is verified at level 2 exactly if it claims that level at least, its own DID resolves
  -- to a document with the key that verifies its signature, and one of its attestations is
  -- valid.
  pub level_two_exactly :
      (now : ℕ) (card : AgentCard)
      → (verify_agent_card o trusted now card).kya_level_verified ≡ 2
        ↔ (2 ≤ card.kya_level) × IsCardSigned card × HasValid o trusted now card.attestations
  unfolding verify_agent_card
  level_two_exactly now card = (
    λ h. elim (Bool-cases (card.kya_level == 0)) [
      | inl bare ↦ let none_given : ◌≡◌ {A = ℕ} 0 2 = rw bare at h in absurd (omega arith)
      | inr claims ↦ elim (Option-cases (o.resolve card.id)) [
        | inl q ↦ let none_given : ◌≡◌ {A = ℕ} 0 2 = rw (claims, q) at h in absurd (omega arith)
        | inr (doc, q) ↦
            (signed_level now card doc card.card_signature q refl).0 (rw (claims, q) at h)
      ]
    ],
    λ (high, signed, found).
        let (doc, at, _, _, _, _, _) = signed in
        let claims : (card.kya_level == 0) ≡ false = ground arith in
        rw (claims, at)
          ((signed_level now card doc card.card_signature at refl).1 (high, signed, found)),
  )

  -- A card that is signed goes on to its attestations.
  signed_goes_on :
      (now : ℕ) (card : AgentCard)
      → 1 ≤ card.kya_level
      → IsCardSigned card
      → verify_agent_card o trusted now card ≡ verify_attestations o trusted now card
  unfolding verify_agent_card
  signed_goes_on now card claims (doc, at, sig, q, vm, method, right) =
      let claims' : (card.kya_level == 0) ≡ false = ground arith in
      rw (claims', at)
        (ap (verify_signature_of o trusted now card doc) q
          ∙ rw (verify_signature_of, method, right) refl)

  pub signed-card_signature_valid :
      (now : ℕ) (card : AgentCard)
      → 1 ≤ card.kya_level
      → IsCardSigned card
      → (verify_agent_card o trusted now card).card_signature_valid ≡ true
  unfolding verify_attestations
  signed-card_signature_valid now card claims signed =
      ap (λ v. v.card_signature_valid) (signed_goes_on now card claims signed)
      ∙ elim (Bool-cases (ltb card.kya_level 2)) [ inl low ↦ rw low refl | inr high ↦ rw high refl ]

  attested_level-le :
      (now : ℕ) (card : AgentCard) → (verify_attestations o trusted now card).kya_level_verified ≤ 2
  unfolding verify_attestations
  attested_level-le now card = ground arith

  signed_level-le :
      (now : ℕ) (card : AgentCard) (doc : DidDocument) (given : Option CardSignature)
      → (verify_signature_of o trusted now card doc given).kya_level_verified ≤ 2
  unfolding verify_signature_of
  signed_level-le now card doc none = omega arith
  signed_level-le now card doc (some sig) = ground (arith, attested_level-le now card)

  pub level-le-two :
      (now : ℕ) (card : AgentCard) → (verify_agent_card o trusted now card).kya_level_verified ≤ 2
  unfolding verify_agent_card
  level-le-two now card = elim (Bool-cases (card.kya_level == 0)) [
    | inl bare ↦ rw bare (omega arith)
    | inr claims ↦ elim (Option-cases (o.resolve card.id)) [
      | inl q ↦ rw (claims, q) (omega arith)
      | inr (doc, q) ↦ rw (claims, q) (signed_level-le now card doc card.card_signature)
    ]
  ]
