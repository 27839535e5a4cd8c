-- ===== src/Exchange/Identity/Verifier.antt =====
-- `VCVerifier` of exchange/identity/vc_verifier.py. Parameters are what it takes from elsewhere: the
-- resolution of a DID over the network, canonical JSON, Ed25519, and `datetime.fromisoformat`.
-- The fields of a dict hold texts; the error texts and the dates that a result repeats are left out.
pub mod Credentials
pub mod Levels
use a2a_settlement.Base.{
  ℕ, Bool, true, false, not, Option, none, some, List, [], ◌∷◌, map, ltb, leb, ◌==◌, ◌&&◌, ◌||◌,
  if◌then◌else◌, is_some,
}
use Prim.Native.String.{String}
use text.Mathlib.Text.{◌==◌ as str_eq}

pub data VerificationStatus : Type 0 where
  valid expired not_yet_valid invalid_signature untrusted_issuer : VerificationStatus
  issuer_unresolvable malformed : VerificationStatus

pub record CredentialProof : Type 0 where
  pub proof_type : Option String
  pub verification_method : Option String
  pub proof_value : Option String

-- A credential as a dict; a key that is missing is `none`.
pub record Credential : Type 0 where
  pub vc_type : Option String
  pub issuer : Option String
  pub issuer_name : Option String
  pub claim : Option String
  pub credential_subject : Option String
  pub valid_from : Option String
  pub expires_at : Option String
  pub proof : Option CredentialProof

pub record CredentialResult : Type 0 where
  pub status : VerificationStatus
  pub credential_claim : Option String
  pub issuer_did : Option String

pub record CardSignature : Type 0 where
  pub verification_method : String
  pub proof_value : String

-- The fields of an agent card that the code reads, and the text of the card.
pub record AgentCard : Type 0 where
  pub name : String
  pub id : String
  pub description : String
  pub kya_level : ℕ
  pub attestations : List Credential
  pub skills : List String
  pub card_signature : Option CardSignature
  pub json : String

pub record AgentVerification : Type 0 where
  pub verified : Bool
  pub kya_level_claimed : ℕ
  pub kya_level_verified : ℕ
  pub credential_results : List CredentialResult
  pub card_signature_valid : Bool
  pub did_resolved : Bool

pub record VerificationMethod : Type 0 where
  pub id : String
  pub public_key_multibase : String

pub record DidDocument : Type 0 where
  pub id : String
  pub verification_methods : List VerificationMethod

-- A date and time as it is written, the instant that it denotes, and whether it has an offset.
pub record Stamp : Type 0 where
  pub wall : ℕ
  pub instant : ℕ
  pub has_offset : Bool

abbrev pub is_valid : VerificationStatus → Bool
is_valid VerificationStatus.valid = true
is_valid VerificationStatus.expired = false
is_valid VerificationStatus.not_yet_valid = false
is_valid VerificationStatus.invalid_signature = false
is_valid VerificationStatus.untrusted_issuer = false
is_valid VerificationStatus.issuer_unresolvable = false
is_valid VerificationStatus.malformed = false

unfoldable pub find_method : String → List VerificationMethod → Option VerificationMethod
find_method key_id [] = none
find_method key_id (vm ∷ vms) = if str_eq vm.id key_id then some vm else find_method key_id vms

-- `DIDResolver.extract_verification_method` of exchange/identity/did_resolver.py
unfoldable pub extract_verification_method : DidDocument → String → Option VerificationMethod
unfolding find_method
extract_verification_method doc key_id = find_method key_id doc.verification_methods

unfoldable pub is_member : String → List String → Bool
is_member x [] = false
is_member x (y ∷ ys) = str_eq x y || is_member x ys

-- `_REQUIRED_VC_FIELDS`, but for the proof, and `_REQUIRED_PROOF_FIELDS`.
abbrev pub has_fields : Credential → Bool
has_fields c =
    is_some c.vc_type
    && (is_some c.issuer
        && (is_some c.claim
            && (is_some c.credential_subject && (is_some c.valid_from && is_some c.expires_at))))

abbrev pub has_proof_fields : CredentialProof → Bool
has_proof_fields p =
    is_some p.proof_type && (is_some p.verification_method && is_some p.proof_value)

abbrev pub text_of : Option String → String
text_of none = ""
text_of (some t) = t

-- `{k: v for k, v in credential.items() if k != "proof"}`
abbrev pub without_proof : Credential → Credential
without_proof c = record c { proof = none }

-- `_card_without_signature`; the text of the whole card goes with it.
abbrev pub without_signature : AgentCard → AgentCard
without_signature card = record card { card_signature = none; json = "" }

-- What the verifier takes from elsewhere.
pub record Outside : Type 0 where
  pub resolve : String → Option DidDocument
  pub verify_ed25519 : String → String → String → Bool
  pub canonical_vc : Credential → String
  pub canonical_card : AgentCard → String
  pub fromisoformat : String → Option Stamp

module _ (o : Outside) (trusted : List String) where
  -- `_parse_dt`: `replace(tzinfo=utc)` keeps the time as it is written, and drops the offset.
  abbrev pub parse_dt : Option String → Option ℕ
  parse_dt t = elim (o.fromisoformat (text_of t)) [ none ↦ none | some stamp ↦ some stamp.wall ]

  -- What is left after the dates: the issuer's document, its key, the signature, and trust.
  unfoldable pub check_issuer : Credential → CredentialProof → VerificationStatus
  unfolding extract_verification_method is_member
  check_issuer c p = elim (o.resolve (text_of c.issuer)) [
    | none ↦ VerificationStatus.issuer_unresolvable
    | some doc ↦ elim (extract_verification_method doc (text_of p.verification_method)) [
      | none ↦ VerificationStatus.invalid_signature
      | some vm ↦
          if o.verify_ed25519 (o.canonical_vc (without_proof c)) (text_of p.proof_value)
            vm.public_key_multibase
          then (if is_member (text_of c.issuer) trusted
              then VerificationStatus.valid
              else VerificationStatus.untrusted_issuer)
          else VerificationStatus.invalid_signature
    ]
  ]

  unfoldable pub check_dates : ℕ → Credential → CredentialProof → ℕ → ℕ → VerificationStatus
  unfolding check_issuer
  check_dates now c p valid_from expires_at =
      if ltb now valid_from
      then VerificationStatus.not_yet_valid
      else if leb expires_at now
      then VerificationStatus.expired
      else check_issuer c p

  unfoldable pub check_proof : ℕ → Credential → CredentialProof → VerificationStatus
  unfolding check_dates
  check_proof now c p =
      if not (has_proof_fields p)
      then VerificationStatus.malformed
      else elim (parse_dt c.valid_from) [
        | none ↦ VerificationStatus.malformed
        | some valid_from ↦ elim (parse_dt c.expires_at) [
          | none ↦ VerificationStatus.malformed
          | some expires_at ↦ check_dates now c p valid_from expires_at
        ]
      ]

  unfoldable pub credential_status : ℕ → Credential → VerificationStatus
  unfolding check_proof
  credential_status now c =
      if not (has_fields c)
      then VerificationStatus.malformed
      else elim c.proof [ none ↦ VerificationStatus.malformed | some p ↦ check_proof now c p ]

  -- A malformed credential is answered without its claim and issuer.
  abbrev pub result_of : Credential → VerificationStatus → CredentialResult
  result_of c VerificationStatus.malformed = record {
    status = VerificationStatus.malformed;
    credential_claim = none;
    issuer_did = none;
  }
  result_of c s = record { status = s; credential_claim = c.claim; issuer_did = c.issuer }

  unfoldable pub verify_credential : ℕ → Credential → CredentialResult
  unfolding credential_status
  verify_credential now c = result_of c (credential_status now c)

  unfoldable pub any_valid : List CredentialResult → Bool
  any_valid [] = false
  any_valid (r ∷ rs) = is_valid r.status || any_valid rs

  abbrev pub no_level : ℕ → Bool → Bool → AgentVerification
  no_level claimed verified did_resolved = record {
    verified = verified;
    kya_level_claimed = claimed;
    kya_level_verified = 0;
    credential_results = [];
    card_signature_valid = false;
    did_resolved = did_resolved;
  }

  abbrev pub signed_card : ℕ → Bool → ℕ → List CredentialResult → AgentVerification
  signed_card claimed verified level results = record {
    verified = verified;
    kya_level_claimed = claimed;
    kya_level_verified = level;
    credential_results = results;
    card_signature_valid = true;
    did_resolved = true;
  }

  -- Level 2, on a card whose signature holds.
  unfoldable pub verify_attestations : ℕ → AgentCard → AgentVerification
  unfolding verify_credential any_valid
  verify_attestations now card =
      if ltb card.kya_level 2
      then signed_card card.kya_level true 1 []
      else let results = map (verify_credential now) card.attestations in
        let found = any_valid results in
        signed_card card.kya_level found (if found then 2 else 1) results

  abbrev pub holds : AgentCard → CardSignature → VerificationMethod → Bool
  holds card sig vm =
      o.verify_ed25519 (o.canonical_card (without_signature card)) sig.proof_value
        vm.public_key_multibase

  unfoldable pub verify_signature_of :
      ℕ → AgentCard → DidDocument → Option CardSignature → AgentVerification
  unfolding verify_attestations extract_verification_method
  verify_signature_of now card doc none = no_level card.kya_level false true
  verify_signature_of now card doc (some sig) =
      elim (extract_verification_method doc sig.verification_method) [
        | none ↦ no_level card.kya_level false true
        | some vm ↦
            if holds card sig vm
            then verify_attestations now card
            else no_level card.kya_level false true
      ]

  unfoldable pub verify_agent_card : ℕ → AgentCard → AgentVerification
  unfolding verify_signature_of
  verify_agent_card now card =
      if card.kya_level == 0 then no_level 0 true false else elim (o.resolve card.id) [
        | none ↦ no_level card.kya_level false false
        | some doc ↦ verify_signature_of now card doc card.card_signature
      ]
