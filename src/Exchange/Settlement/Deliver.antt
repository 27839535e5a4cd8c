-- ===== src/Exchange/Settlement/Deliver.antt =====
-- `deliver` of exchange/routes/settlement.py. The column `provenance`, which no modelled code reads,
-- is left out.
pub mod Keeps
use a2a_settlement.Base.{ℕ, Bool, true, not, Option, none, some, List, ◌==◌}
use a2a_settlement.Table.{find}
use a2a_settlement.Exchange.Errors.{
  Result, ok, http, raise_if, or_raise, ◌>>=◌, ◌>>◌, escrow_not_found, not_permitted, wrong_status,
  attestation_too_low,
}
use a2a_settlement.Exchange.Models.{AttestationLevel, EscrowStatus, Escrow, ProvenanceResult, Db}
use a2a_settlement.Exchange.Config.{Context}
use a2a_settlement.Exchange.Ledger.{modify_escrow}
use a2a_settlement.Exchange.Observer.{is_held}
use a2a_settlement.Exchange.Provenance.{Provenance, Check, meets, result_of, verify_provenance}
use Prim.Native.String.{String}

pub record DeliverRequest (R : Type 0) : Type 0 where
  pub content : String
  pub provenance : Option (Provenance R)

pub record DeliverResponse : Type 0 where
  pub escrow_id : ℕ
  pub status : EscrowStatus
  pub delivered_at : ℕ

-- The level of a provenance that is given; a delivery without one passes.
abbrev pub level_passes : {R : Type 0} → Option AttestationLevel → Option (Provenance R) → Bool
level_passes required none = true
level_passes required (some p) = meets required p.attestation_level

module _ {R : Type 0} (ctx : Context R) (sha256 : String → String)
    (extract_domain : String → String) (ratio : ℕ → ℕ → R) where
  abbrev pub mark_delivered : DeliverRequest R → Escrow → Escrow
  mark_delivered req e = record e {
    delivered_content = some req.content;
    provenance_result = result_of (
        verify_provenance ctx.floats sha256 extract_domain ratio req.provenance req.content
          e.required_attestation_level);
    delivered_at = some ctx.now;
  }

  unfoldable pub deliver : ℕ → ℕ → DeliverRequest R → Db R → Result (Db R × DeliverResponse)
  deliver current k req db = do
    e ← or_raise (find k db.escrows) (http 404 escrow_not_found)
    raise_if (not (e.provider_id == current)) (http 403 not_permitted)
    raise_if (not (is_held e.status)) (http 400 wrong_status)
    raise_if (not (level_passes e.required_attestation_level req.provenance))
        (http 400 attestation_too_low)
    ok (
      modify_escrow k (mark_delivered req) db,
      record { escrow_id = k; status = e.status; delivered_at = ctx.now },
    )
