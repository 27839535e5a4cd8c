-- ===== src/Exchange/Settlement/Refund.antt =====
-- `refund` and `_auto_refund_dependents` of exchange/routes/settlement.py.
pub mod Cascade
pub mod Diamond
pub mod Books
pub mod Returns
use a2a_settlement.Base.{
  ℕ, zero, suc, ◌+◌, Bool, true, false, not, Option, none, some, List, [], ◌∷◌, ◌==◌, ◌&&◌, or_zero,
  is_some, contains, if◌then◌else◌,
}
use a2a_settlement.Table.{Table, find, select}
use a2a_settlement.Exchange.Errors.{
  Result, ok, err, http, raise_if, or_raise, ◌>>=◌, ◌>>◌, escrow_not_found, not_permitted,
  wrong_status, balance_not_found, recursion_limit,
}
use a2a_settlement.Exchange.Models.{Account, EscrowStatus, Escrow, TxType, Db}
use a2a_settlement.Exchange.Config.{Context}
use a2a_settlement.Exchange.Ledger.{
  unhold, modify_balance, modify_escrow, modify_account, add_transaction,
}
use a2a_settlement.Exchange.Observer.{expire_stale_held, is_held, resolve_as, refund_tx}
use a2a_settlement.Exchange.Reputation.{punish}
use a2a_settlement.Exchange.Settlement.Common.{
  is_partially_released, is_settleable, ids_of, movement,
}

pub record RefundResponse : Type 0 where
  pub escrow_id : ℕ
  pub status : EscrowStatus
  pub amount_returned : ℕ
  pub requester_id : ℕ

-- The held escrows that name `upstream` among their dependencies.
unfoldable pub dependents_of : ℕ → Table Escrow → List ℕ
dependents_of upstream rows =
    select (λ e. is_held e.status && contains upstream (ids_of e.depends_on)) rows

abbrev pub refund_total : Escrow → ℕ
refund_total e =
    if is_partially_released e.status
    then or_zero e.holdback_amount + or_zero e.holdback_fee
    else e.amount + e.fee_amount

abbrev pub mark_refunded : ℕ → Escrow → Escrow
mark_refunded now e =
    if is_partially_released e.status
    then record e {
      status = EscrowStatus.released;
      resolved_at = some now;
      holdback_amount = some 0;
      holdback_fee = some 0;
    }
    else record e { status = EscrowStatus.refunded; resolved_at = some now }

abbrev pub refund_type : EscrowStatus → TxType
refund_type EscrowStatus.partially_released = TxType.escrow_holdback_refund
refund_type _ = TxType.escrow_refund

module _ {R : Type 0} (now : ℕ) where
  -- The refund of one dependent, whose requester has a balance.
  unfoldable pub refund_dependent : ℕ → Escrow → Db R → Db R
  refund_dependent k e db = add_transaction (refund_tx now k e) (
      modify_escrow k (resolve_as EscrowStatus.refunded now)
        (modify_balance e.requester_id (unhold (e.amount + e.fee_amount)) db))

  -- The loop over the dependents; `again` is the recursive call.
  unfoldable pub refund_each : (ℕ → Db R → Result (Db R)) → List ℕ → Db R → Result (Db R)
  refund_each again [] db = ok db
  refund_each again (k ∷ ks) db = elim (find k db.escrows) [
    | none ↦ refund_each again ks db
    | some e ↦ elim (find e.requester_id db.balances) [
      | none ↦ refund_each again ks db
      | some _ ↦ again k (refund_dependent k e db) >>= refund_each again ks
    ]
  ]

  -- `_auto_refund_dependents`. Its query sees the rows as they were when the request began, since
  -- nothing is flushed; the fuel is Python's recursion limit.
  unfoldable pub auto_refund_dependents : Table Escrow → ℕ → ℕ → Db R → Result (Db R)
  unfolding refund_each
  auto_refund_dependents rows zero upstream db = err (http 500 recursion_limit)
  auto_refund_dependents rows (suc fuel) upstream db =
      refund_each (auto_refund_dependents rows fuel) (dependents_of upstream rows) db

module _ {R : Type 0} (ctx : Context R) where
  -- The provider's reputation falls if there was a delivery.
  abbrev pub punish_delivered : Escrow → Account R → Account R
  punish_delivered e a =
      if is_some e.delivered_at then punish ctx.floats e.self_dealing_class a else a

  -- The changes to the refunded escrow itself, once every check has passed.
  unfoldable pub refund_funds : ℕ → Escrow → Db R → Db R
  refund_funds k e db = modify_account e.provider_id (punish_delivered e) (
      add_transaction
        (movement ctx.now (some k) none (some e.requester_id) (refund_total e)
          (refund_type e.status) e.self_dealing_class)
        (modify_escrow k (mark_refunded ctx.now)
          (modify_balance e.requester_id (unhold (refund_total e)) db)))

  abbrev pub refund_rest : ℕ → Table Escrow → ℕ → Escrow → Db R → Result (Db R)
  refund_rest fuel rows k e db =
      if is_partially_released e.status
      then ok db
      else auto_refund_dependents ctx.now rows fuel k db

  -- `fuel` bounds the depth of the recursion over dependents.
  unfoldable pub refund : ℕ → ℕ → ℕ → Db R → Result (Db R × RefundResponse)
  refund fuel current k rows = do
    let db = expire_stale_held ctx.now rows
    e ← or_raise (find k db.escrows) (http 404 escrow_not_found)
    raise_if (not (e.requester_id == current)) (http 403 not_permitted)
    raise_if (not (is_settleable e.status)) (http 400 wrong_status)
    requester_bal ← or_raise (find e.requester_id db.balances) (http 404 balance_not_found)
    db' ← refund_rest fuel rows.escrows k e (refund_funds k e db)
    ok (
      db',
      record {
        escrow_id = k;
        status = (mark_refunded ctx.now e).status;
        amount_returned = refund_total e;
        requester_id = e.requester_id;
      },
    )
