-- ===== src/Exchange/Settlement/Refund/Returns.antt =====
-- About when `refund` of exchange/routes/settlement.py succeeds, and what it leaves.
use a2a_settlement.Base.{
  ℕ, suc, ◌+◌, ◌≤◌, ◌≡◌, refl, true, some, [], arith, is_some, inl, inr, Option-cases, ==_refl,
}
use a2a_settlement.Table.{find}
use a2a_settlement.Table.Laws.{find-modify_self}
use a2a_settlement.Table.Keys.{UniqueKeys}
use a2a_settlement.Exchange.Errors.{ok, raise_if, or_raise, ◌>>=◌, ◌>>◌}
use a2a_settlement.Exchange.Models.{EscrowStatus, Escrow, Db}
use a2a_settlement.Exchange.Config.{Context}
use a2a_settlement.Exchange.Ledger.{modify_balance, modify_escrow, modify_account, add_transaction}
use a2a_settlement.Exchange.Observer.{expire_stale_held, resolve_as}
use a2a_settlement.Exchange.Observer.Frame.{find-expire_stale_held}
use a2a_settlement.Exchange.Settlement.Release.Returns.{is_some-expire_stale_held}
use a2a_settlement.Exchange.Settlement.Refund.{
  RefundResponse, dependents_of, refund_each, auto_refund_dependents, mark_refunded, refund_funds,
  refund,
}

module _ {R : Type 0} (ctx : Context R) where
  find-refund_funds :
      (k : ℕ) (e : Escrow) (db : Db R)
      → find k db.escrows ≡ some e
      → find k (refund_funds ctx k e db).escrows ≡ some (mark_refunded ctx.now e)
  unfolding refund_funds modify_account add_transaction modify_escrow modify_balance
  find-refund_funds k e db at = find-modify_self k (mark_refunded ctx.now) db.escrows e at

  -- The requester of a held escrow that is not past its expiry, on which no held escrow depends,
  -- and who has a balance, can refund it with any positive fuel where escrow ids are unique: the
  -- handler returns, reports the amount and the fee as returned, and leaves the escrow refunded.
  pub refund_returns :
      (fuel k : ℕ) (e : Escrow) (rows : Db R)
      → UniqueKeys rows.escrows
      → find k rows.escrows ≡ some e
      → e.status ≡ EscrowStatus.held
      → ctx.now ≤ e.expires_at
      → dependents_of k rows.escrows ≡ []
      → is_some (find e.requester_id rows.balances) ≡ true
      → (r : Db R × RefundResponse) × (refund ctx (suc fuel) e.requester_id k rows ≡ ok r)
        × (r.1.amount_returned ≡ e.amount + e.fee_amount)
        × (find k r.0.escrows ≡ some (resolve_as EscrowStatus.refunded ctx.now e))
  unfolding refund ◌>>=◌ ◌>>◌ raise_if or_raise auto_refund_dependents refund_each
  refund_returns fuel k e rows keys at is_open fresh alone known =
      let db = expire_stale_held ctx.now rows in
      let same = find-expire_stale_held ctx.now k e rows keys at (ground (arith, fresh)) in
      elim (Option-cases (find e.requester_id db.balances)) [
        | inl lost ↦
            let here = is_some-expire_stale_held ctx.now e.requester_id rows known in
            let impossible : ⊥ = ground (arith, here, lost) in absurd impossible
        | inr (rb, at_r) ↦ (
          (
            refund_funds ctx k e db,
            record {
              escrow_id = k;
              status = EscrowStatus.refunded;
              amount_returned = e.amount + e.fee_amount;
              requester_id = e.requester_id;
            },
          ),
          ground (arith, same, is_open, alone, ==_refl e.requester_id, at_r),
          refl,
          ground (arith, find-refund_funds k e db same, is_open),
        )
      ]
