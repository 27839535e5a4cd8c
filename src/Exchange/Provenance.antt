-- ===== src/Exchange/Provenance.antt =====
-- `_verify_provenance` of exchange/routes/settlement.py, on the request models of
-- exchange/schemas.py.
pub mod Verified
use a2a_settlement.Base.{
  ℕ, zero, suc, ◌+◌, ◌-◌, Bool, true, false, not, Option, none, some, List, [], ◌∷◌, ◌++◌, map,
  length, ltb, leb, min, max, ◌==◌, ◌&&◌, ◌||◌, if◌then◌else◌,
}
use a2a_settlement.Int.{ℤ, pos, negsuc, pos_part}
use a2a_settlement.Exchange.Models.{
  AttestationLevel, self_declared, signed, verifiable, Recommendation, approve, review,
  ProvenanceResult,
}
use a2a_settlement.Exchange.Config.{Floats}
use Prim.Native.String.{String, count}
use text.Mathlib.Text.{◌==◌ as str_eq}

-- The `content_hash` of a SourceRef.
pub record SourceRef : Type 0 where
  pub content_hash : Option String

pub record GroundingSupport : Type 0 where
  pub start_index : ℤ
  pub end_index : ℤ
  pub chunk_indices : List ℤ

-- A chunk is its URI.
pub record GroundingMetadata (R : Type 0) : Type 0 where
  pub chunks : List String
  pub supports : List GroundingSupport
  pub coverage : Option R

pub record Provenance (R : Type 0) : Type 0 where
  pub attestation_level : AttestationLevel
  pub source_refs : List SourceRef
  pub signature : Option String
  pub grounding_metadata : Option (GroundingMetadata R)

-- The entries of `checks`.
pub data Check (R : Type 0) : Type 0 where
  attestation_level_met attestation_level_insufficient :
      AttestationLevel → AttestationLevel → Check R
  source_refs_missing content_hash_match content_hash_mismatch : Check R
  source_refs_present : ℕ → Check R
  signature_missing signature_present : Check R
  grounding_chunks_present : ℕ → Check R
  grounding_chunks_empty : Check R
  grounding_supports_valid : Bool → Check R
  grounding_coverage : R → Check R
  grounding_sufficient grounding_insufficient : Check R
  grounding_source_diversity : ℕ → Check R
  grounding_single_source : Check R

-- tier_order
abbrev pub tier_order : AttestationLevel → ℕ
tier_order self_declared = 0
tier_order signed = 1
tier_order verifiable = 2

-- tier in ("signed", "verifiable")
abbrev pub is_attested : AttestationLevel → Bool
is_attested self_declared = false
is_attested signed = true
is_attested verifiable = true

-- The truth of a text.
abbrev pub is_nonempty : String → Bool
is_nonempty s = not (str_eq s "")

abbrev pub is_given : Option String → Bool
is_given none = false
is_given (some s) = is_nonempty s

-- The level that is provided reaches the level that is required, if one is.
abbrev pub meets : Option AttestationLevel → AttestationLevel → Bool
meets none tier = true
meets (some required) tier = leb (tier_order required) (tier_order tier)

abbrev pub refs_given : AttestationLevel → List SourceRef → Bool
refs_given tier [] = not (is_attested tier)
refs_given tier (r ∷ rs) = true

-- idx < 0 or idx >= n
abbrev pub is_outside : ℕ → ℤ → Bool
is_outside n (pos i) = leb n i
is_outside n (negsuc i) = true

abbrev pub all_inside : ℕ → List ℤ → Bool
all_inside n [] = true
all_inside n (i ∷ is) = not (is_outside n i) && all_inside n is

abbrev pub valid_indices : ℕ → List GroundingSupport → Bool
valid_indices n [] = true
valid_indices n (s ∷ ss) = all_inside n s.chunk_indices && valid_indices n ss

-- Position i is in range(s, e), where s = max(0, min(start, n)) and e = max(s, min(end, n)).
abbrev pub covers : ℕ → ℕ → GroundingSupport → Bool
covers n i sup =
    let s = min (pos_part sup.start_index) n in
    let e = max s (min (pos_part sup.end_index) n) in leb s i && ltb i e

abbrev pub is_covered : ℕ → ℕ → List GroundingSupport → Bool
is_covered n i [] = false
is_covered n i (sup ∷ sups) = covers n i sup || is_covered n i sups

-- `sum(covered)`, over the first k of n positions.
unfoldable pub covered_below : ℕ → ℕ → List GroundingSupport → ℕ
covered_below n zero sups = 0
covered_below n (suc k) sups = (if is_covered n k sups then 1 else 0) + covered_below n k sups

abbrev pub has_text : String → List String → Bool
has_text d [] = false
has_text d (e ∷ es) = str_eq d e || has_text d es

-- The size of the set of domains.
unfoldable pub distinct : List String → ℕ
distinct [] = 0
distinct (d ∷ ds) = (if has_text d ds then 0 else 1) + distinct ds

-- `netloc` of each URI that is not empty.
unfoldable pub domains : (String → String) → List String → List String
domains extract_domain [] = []
domains extract_domain (u ∷ us) =
    if is_nonempty u
    then extract_domain u ∷ domains extract_domain us
    else domains extract_domain us

module _ {R : Type 0} where
  abbrev pub level_checks : Option AttestationLevel → AttestationLevel → List (Check R)
  level_checks none tier = []
  level_checks (some required) tier =
      if meets (some required) tier
      then attestation_level_met tier required ∷ []
      else attestation_level_insufficient tier required ∷ []

  abbrev pub ref_checks : AttestationLevel → List SourceRef → List (Check R)
  ref_checks tier [] = if is_attested tier then source_refs_missing ∷ [] else []
  ref_checks tier (r ∷ rs) = source_refs_present (length (r ∷ rs)) ∷ []

  abbrev pub signature_checks : AttestationLevel → Option String → List (Check R)
  signature_checks tier signature =
      if is_given signature
      then signature_present ∷ []
      else if is_attested tier
      then signature_missing ∷ []
      else []

  -- `sha256` of the delivered text, in hexadecimal.
  unfoldable pub hash_checks : String → List SourceRef → List (Check R)
  hash_checks actual [] = []
  hash_checks actual (r ∷ rs) = elim (r.content_hash) [
    | none ↦ hash_checks actual rs
    | some h ↦
        let rest = hash_checks actual rs in
        if is_nonempty h
        then (if str_eq h actual then content_hash_match else content_hash_mismatch) ∷ rest
        else rest
  ]

abbrev pub result_of : {A B : Type 0} → Option (A × B) → Option A
result_of none = none
result_of (some r) = some r.0

-- `sha256` is the digest of a text's UTF-8, `extract_domain` is `_extract_domain`, and `ratio` the
-- float division of two numbers.
module _ {R : Type 0} (F : Floats R) (sha256 : String → String) (extract_domain : String → String)
    (ratio : ℕ → ℕ → R) where
  abbrev pub coverage_checks : R → List (Check R)
  coverage_checks c =
      grounding_coverage c
      ∷ (if F.lt (F.literal 5 1) c then grounding_sufficient else grounding_insufficient)
      ∷ []

  abbrev pub computed_coverage : String → List GroundingSupport → R
  computed_coverage content sups =
      let n = count content in if n == 0 then F.literal 0 1 else ratio (covered_below n n sups) n

  unfoldable pub support_checks : Option R → List GroundingSupport → String → List (Check R)
  unfolding covered_below
  support_checks (some c) sups content = coverage_checks c
  support_checks none [] content = []
  support_checks none (s ∷ ss) content =
      if is_nonempty content then coverage_checks (computed_coverage content (s ∷ ss)) else []

  abbrev pub domain_checks : ℕ → List (Check R)
  domain_checks n =
      if leb 2 n
      then grounding_source_diversity n ∷ []
      else if ltb 0 n
      then grounding_single_source ∷ []
      else []

  unfoldable pub grounding_checks : GroundingMetadata R → String → List (Check R)
  unfolding support_checks distinct domains
  grounding_checks g content =
      let n = length g.chunks in
      (if ltb 0 n then grounding_chunks_present n else grounding_chunks_empty)
        ∷ grounding_supports_valid (valid_indices n g.supports)
        ∷ support_checks g.coverage g.supports content
      ++ domain_checks (distinct (domains extract_domain g.chunks))

  -- The result that is stored, with the checks.
  unfoldable pub verify_provenance :
      Option (Provenance R)
      → String
      → Option AttestationLevel
      → Option (ProvenanceResult × List (Check R))
  unfolding hash_checks grounding_checks
  verify_provenance none content required_level = none
  verify_provenance (some p) content required_level =
      let tier = p.attestation_level in
      let verified = meets required_level tier && refs_given tier p.source_refs in
      some (
        record {
          verified = some verified;
          tier = some tier;
          recommendation = some (if verified then approve else review);
        },
        level_checks required_level tier
            ++ ref_checks tier p.source_refs
            ++ hash_checks (sha256 content) p.source_refs
            ++ signature_checks tier p.signature
            ++ elim (p.grounding_metadata) [ none ↦ [] | some g ↦ grounding_checks g content ],
      )
