-- ===== src/Exchange/Provenance/Verified.antt =====
-- About `_verify_provenance` of exchange/routes/settlement.py and the reputation that follows from it.
use a2a_settlement.Base.{
  ℕ, zero, suc, ◌≤◌, ◌≡◌, refl, sym, ap, ◌∙◌, Option, some, List, arith, ◌&&◌, if◌then◌else◌,
}
use a2a_settlement.Exchange.Models.{Account, AttestationLevel, approve, review}
use a2a_settlement.Exchange.Config.{Floats}
use a2a_settlement.Exchange.Reputation.{apply_provenance_reputation_penalty}
use a2a_settlement.Exchange.Provenance.{
  Provenance, GroundingSupport, covered_below, meets, refs_given, verify_provenance, result_of,
}
use Prim.Native.String.{String}

-- No more positions are covered than the text has.
pub covered_below_le : (n k : ℕ) (sups : List GroundingSupport) → covered_below n k sups ≤ k
unfolding covered_below
covered_below_le n zero sups = omega arith
covered_below_le n (suc k) sups = let ih = covered_below_le n k sups in ground (arith, ih)

module _ {R : Type 0} (F : Floats R) (sha256 : String → String) (extract_domain : String → String)
    (ratio : ℕ → ℕ → R) where
  stored_result :
      (p : Provenance R) (content : String) (required : Option AttestationLevel)
      → result_of (verify_provenance F sha256 extract_domain ratio (some p) content required) ≡ (
          let verified =
            meets required p.attestation_level && refs_given p.attestation_level p.source_refs in
          some (record {
            verified = some verified;
            tier = some p.attestation_level;
            recommendation = some (if verified then approve else review);
          }))
  unfolding verify_provenance
  stored_result p content required = refl

  -- Two provenances of one level that both have source references, or both none, give an account
  -- the same reputation, whatever content hashes, signatures and contents they come with.
  pub provenance_ignores_content :
      (p p' : Provenance R) (content content' : String) (required : Option AttestationLevel)
      (a : Account R)
      → p.attestation_level ≡ p'.attestation_level
      → refs_given p.attestation_level p.source_refs
        ≡ refs_given p'.attestation_level p'.source_refs
      → apply_provenance_reputation_penalty F
          (result_of (verify_provenance F sha256 extract_domain ratio (some p) content required))
          a
        ≡ apply_provenance_reputation_penalty F
            (result_of
              (verify_provenance F sha256 extract_domain ratio (some p') content' required))
            a
  provenance_ignores_content p p' content content' required a level refs =
      ap (λ r. apply_provenance_reputation_penalty F r a)
        (stored_result p content required
          ∙ rw (refs, level) refl
          ∙ sym (stored_result p' content' required))
