-- ===== src/Exchange/Settlement/Evidence.antt =====
-- `submit_evidence` and `submit_oracle_evidence` of exchange/routes/settlement.py. The columns of a
-- submission that no modelled code reads are left out.
pub mod Window
use a2a_settlement.Base.{
  ℕ, Bool, true, false, not, is_some, Option, none, some, List, [], ◌∷◌, length, ltb, ◌==◌, ◌&&◌,
  ◌||◌,
}
use a2a_settlement.Table.{find}
use a2a_settlement.Exchange.Errors.{
  Result, ok, http, raise_if, or_raise, ◌>>=◌, ◌>>◌, account_not_found, escrow_not_found,
  not_permitted, wrong_status, naive_datetime, reputation_too_low, window_closed, bad_artifact,
}
use a2a_settlement.Exchange.Models.{EvidenceSubmission, Escrow, Db}
use a2a_settlement.Exchange.Config.{Context}
use a2a_settlement.Exchange.Observer.{is_evidence_pending, passed}
use a2a_settlement.Exchange.Settlement.Common.{is_in_dispute}
use a2a_settlement.Exchange.Provenance.{is_given}
use Prim.Native.String.{String, len}
use text.Mathlib.Text.{◌==◌ as str_eq}

pub data ArtifactType : Type 0 where
  inline uri : ArtifactType

pub record EvidenceArtifact : Type 0 where
  pub artifact_type : ArtifactType
  pub content : Option String
  pub uri : Option String
  pub content_hash : String

-- `aware` is true where the database keeps the offsets of instants.
pub record EvidenceSettings (R : Type 0) : Type 0 where
  pub aware : Bool
  pub max_inline_evidence_bytes : ℕ
  pub oracle_min_reputation : R

pub record EvidenceResponse : Type 0 where
  pub escrow_id : ℕ
  pub submitter_id : ℕ
  pub artifact_count : ℕ
  pub oracle_id : Option ℕ
  pub submitted_at : ℕ

abbrev pub new_submission : ℕ → ℕ → Option ℕ → ℕ → EvidenceSubmission
new_submission k current oracle now = record {
  escrow_id = k;
  submitter_id = current;
  oracle_id = oracle;
  submitted_at = now;
}

-- `sha256` is the digest of a text's UTF-8, in hexadecimal.
module _ (sha256 : String → String) (max_bytes : ℕ) where
  -- An inline artifact whose content is there, within the limit and as its hash says; or a URI.
  abbrev pub is_sound_content : String → Option String → Bool
  is_sound_content h none = false
  is_sound_content h (some s) =
      is_given (some s) && (not (ltb max_bytes (len s)) && str_eq (sha256 s) h)

  abbrev pub is_sound : EvidenceArtifact → Bool
  is_sound a = elim (a.artifact_type) [
    | ArtifactType.inline ↦ is_sound_content a.content_hash a.content
    | ArtifactType.uri ↦ is_given a.uri
  ]

  abbrev pub all_sound : List EvidenceArtifact → Bool
  all_sound [] = true
  all_sound (a ∷ rest) = is_sound a && all_sound rest

module _ {R : Type 0} (ctx : Context R) (st : EvidenceSettings R) (sha256 : String → String) where
  unfoldable pub add_submission : EvidenceSubmission → Db R → Db R
  add_submission s db = record db { evidence = s ∷ db.evidence }

  abbrev pub respond : ℕ → ℕ → List EvidenceArtifact → Option ℕ → EvidenceResponse
  respond k current artifacts oracle = record {
    escrow_id = k;
    submitter_id = current;
    artifact_count = length artifacts;
    oracle_id = oracle;
    submitted_at = ctx.now;
  }

  unfoldable pub submit_evidence :
      ℕ → ℕ → List EvidenceArtifact → Db R → Result (Db R × EvidenceResponse)
  unfolding add_submission
  submit_evidence current k artifacts db = do
    e ← or_raise (find k db.escrows) (http 404 escrow_not_found)
    raise_if (not (e.requester_id == current || e.provider_id == current)) (http 403 not_permitted)
    raise_if (not (is_evidence_pending e.status)) (http 400 wrong_status)
    raise_if (not st.aware && is_some e.evidence_window_closes_at) (http 500 naive_datetime)
    raise_if (passed ctx.now e.evidence_window_closes_at) (http 400 window_closed)
    raise_if (not (all_sound sha256 st.max_inline_evidence_bytes artifacts)) (http 400 bad_artifact)
    ok (add_submission (new_submission k current none ctx.now) db, respond k current artifacts none)

  unfoldable pub submit_oracle_evidence :
      ℕ → ℕ → List EvidenceArtifact → Db R → Result (Db R × EvidenceResponse)
  unfolding add_submission
  submit_oracle_evidence current k artifacts db = do
    oracle ← or_raise (find current db.accounts) (http 404 account_not_found)
    raise_if (not oracle.is_oracle) (http 403 not_permitted)
    raise_if (ctx.floats.lt oracle.reputation st.oracle_min_reputation)
        (http 403 reputation_too_low)
    e ← or_raise (find k db.escrows) (http 404 escrow_not_found)
    raise_if (not (is_in_dispute e.status)) (http 400 wrong_status)
    raise_if (not (all_sound sha256 st.max_inline_evidence_bytes artifacts)) (http 400 bad_artifact)
    ok (
      add_submission (new_submission k current (some current) ctx.now) db,
      respond k current artifacts (some current),
    )
