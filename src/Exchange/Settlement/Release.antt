-- ===== src/Exchange/Settlement/Release.antt =====
-- `release` of exchange/routes/settlement.py.
pub mod Books
pub mod Returns
use a2a_settlement.Base.{
  ℕ, ◌+◌, Bool, true, false, not, Option, none, some, List, [], ◌∷◌, ◌==◌, ◌&&◌, ◌||◌, or_zero,
  is_some, if◌then◌else◌,
}
use a2a_settlement.Table.{Table, find}
use a2a_settlement.Exchange.Errors.{
  Result, ok, http, raise_if, or_raise, ◌>>=◌, ◌>>◌, escrow_not_found, not_permitted, wrong_status,
  upstream_not_released, balance_not_found,
}
use a2a_settlement.Exchange.Models.{EscrowStatus, Escrow, TxType, Db}
use a2a_settlement.Exchange.Config.{Context}
use a2a_settlement.Exchange.Ledger.{
  spend_held, earn, modify_balance, modify_escrow, modify_account, add_transaction,
}
use a2a_settlement.Exchange.Observer.{expire_stale_held}
use a2a_settlement.Exchange.Reputation.{reward, default_lam}
use a2a_settlement.Exchange.Settlement.Common.{
  is_partially_released, is_released, is_settleable, ids_of, movement, fee_movement, add_fee,
}

pub record ReleaseResponse : Type 0 where
  pub escrow_id : ℕ
  pub amount_paid : ℕ
  pub fee_collected : ℕ
  pub provider_id : ℕ

-- Whether one of these escrows has a row that is not released.
unfoldable pub has_unreleased : List ℕ → Table Escrow → Bool
has_unreleased [] rows = false
has_unreleased (k ∷ ks) rows =
    elim (find k rows) [ none ↦ false | some e ↦ not (is_released e.status) ]
    || has_unreleased ks rows

-- `pay_amount` and `pay_fee`: the holdback of a partial release, or the whole.
abbrev pub pay_amount : Escrow → ℕ
pay_amount e = if is_partially_released e.status then or_zero e.holdback_amount else e.amount

abbrev pub pay_fee : Escrow → ℕ
pay_fee e = if is_partially_released e.status then or_zero e.holdback_fee else e.fee_amount

-- The escrow after its release; a holdback is spent.
abbrev pub mark_released : ℕ → Escrow → Escrow
mark_released now e =
    if is_partially_released e.status
    then record e {
      status = EscrowStatus.released;
      resolved_at = some now;
      holdback_amount = some 0;
      holdback_fee = some 0;
    }
    else record e { status = EscrowStatus.released; resolved_at = some now }

abbrev pub release_type : EscrowStatus → TxType
release_type EscrowStatus.partially_released = TxType.escrow_holdback_release
release_type _ = TxType.escrow_release

module _ {R : Type 0} (ctx : Context R) where
  -- The changes once every check has passed.
  unfoldable pub release_funds : ℕ → Escrow → Db R → Db R
  release_funds k e db =
      modify_account e.provider_id (reward ctx.floats e.self_dealing_class (default_lam ctx.floats))
        (add_fee (fee_movement ctx.now (some k) e.requester_id (pay_fee e) e.self_dealing_class) (
          add_transaction
            (movement ctx.now (some k) (some e.requester_id) (some e.provider_id) (pay_amount e)
              (release_type e.status) e.self_dealing_class)
            (modify_escrow k (mark_released ctx.now) (
              modify_balance e.provider_id (earn (pay_amount e))
                (modify_balance e.requester_id (spend_held (pay_amount e + pay_fee e)) db)))))

  unfoldable pub release : ℕ → ℕ → Db R → Result (Db R × ReleaseResponse)
  release current k rows = do
    let db = expire_stale_held ctx.now rows
    e ← or_raise (find k db.escrows) (http 404 escrow_not_found)
    raise_if (not (e.requester_id == current)) (http 403 not_permitted)
    raise_if (not (is_settleable e.status)) (http 400 wrong_status)
    raise_if
        (not (is_partially_released e.status) && has_unreleased (ids_of e.depends_on) rows.escrows)
        (http 400 upstream_not_released)
    requester_bal ← or_raise (find e.requester_id db.balances) (http 404 balance_not_found)
    provider_bal ← or_raise (find e.provider_id db.balances) (http 404 balance_not_found)
    ok (
      release_funds k e db,
      record {
        escrow_id = k;
        amount_paid = pay_amount e;
        fee_collected = pay_fee e;
        provider_id = e.provider_id;
      },
    )
