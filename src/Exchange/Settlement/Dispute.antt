-- ===== src/Exchange/Settlement/Dispute.antt =====
-- `dispute` of exchange/routes/settlement.py.
pub mod Books
use a2a_settlement.Base.{ℕ, ◌+◌, Bool, not, Option, none, some, ltb, ◌==◌, ◌||◌}
use a2a_settlement.Int.{pos, ltb_ℤ}
use a2a_settlement.Table.{find}
use a2a_settlement.Exchange.Errors.{
  Result, ok, http, raise_if, or_raise, ◌>>=◌, ◌>>◌, stake_too_small, escrow_not_found,
  not_permitted, wrong_status, insufficient_balance,
}
use a2a_settlement.Exchange.Models.{EscrowStatus, StakeStatus, Escrow, TxType, Db}
use a2a_settlement.Exchange.Config.{Context, minutes, hours}
use a2a_settlement.Exchange.Ledger.{hold, modify_balance, modify_escrow, add_transaction}
use a2a_settlement.Exchange.Observer.{is_held}
use a2a_settlement.Exchange.Settlement.Common.{movement}
use Prim.Native.String.{String}

pub record DisputeResponse : Type 0 where
  pub escrow_id : ℕ
  pub status : EscrowStatus
  pub stake_amount : ℕ
  pub evidence_window_closes_at : ℕ

module _ {R : Type 0} (ctx : Context R) where
  abbrev pub window_closes : ℕ
  window_closes = ctx.now + hours ctx.settings.evidence_window_hours

  abbrev pub mark_disputed : ℕ → ℕ → String → Escrow → Escrow
  mark_disputed current stake reason e = record e {
    status = EscrowStatus.evidence_pending;
    dispute_reason = some reason;
    dispute_filed_by = some current;
    dispute_stake_amount = some stake;
    dispute_stake_status = some StakeStatus.stake_held;
    evidence_window_closes_at = some window_closes;
    dispute_expires_at = some (window_closes + minutes ctx.settings.dispute_ttl_minutes);
  }

  -- The changes once every check has passed.
  unfoldable pub file_dispute : ℕ → ℕ → ℕ → String → Db R → Db R
  file_dispute current k stake reason db = modify_escrow k (mark_disputed current stake reason) (
      add_transaction
        (movement ctx.now (some k) (some current) none stake TxType.dispute_stake_hold none)
        (modify_balance current (hold stake) db))

  unfoldable pub dispute : ℕ → ℕ → ℕ → String → Db R → Result (Db R × DisputeResponse)
  dispute current k stake reason db = do
    raise_if (ltb stake ctx.settings.dispute_stake_min) (http 400 stake_too_small)
    e ← or_raise (find k db.escrows) (http 404 escrow_not_found)
    raise_if (not (e.requester_id == current || e.provider_id == current)) (http 403 not_permitted)
    raise_if (not (is_held e.status)) (http 400 wrong_status)
    bal ← or_raise (find current db.balances) (http 400 insufficient_balance)
    raise_if (ltb_ℤ bal.available (pos stake)) (http 400 insufficient_balance)
    ok (
      file_dispute current k stake reason db,
      record {
        escrow_id = k;
        status = EscrowStatus.evidence_pending;
        stake_amount = stake;
        evidence_window_closes_at = window_closes;
      },
    )
