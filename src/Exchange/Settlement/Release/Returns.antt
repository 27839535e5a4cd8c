-- ===== src/Exchange/Settlement/Release/Returns.antt =====
-- About when `release` of exchange/routes/settlement.py succeeds, and what it leaves.
use a2a_settlement.Base.{
  ℕ, ◌≤◌, ◌≡◌, refl, ◌∙◌, true, false, some, arith, is_some, inl, inr, Option-cases, ==_refl,
}
use a2a_settlement.Table.{find}
use a2a_settlement.Table.Laws.{find-modify_self}
use a2a_settlement.Table.Keys.{UniqueKeys}
use a2a_settlement.Exchange.Errors.{ok, raise_if, or_raise, ◌>>=◌, ◌>>◌}
use a2a_settlement.Exchange.Models.{EscrowStatus, Escrow, Db}
use a2a_settlement.Exchange.Config.{Context}
use a2a_settlement.Exchange.Ledger.{modify_balance, modify_escrow, modify_account, add_transaction}
use a2a_settlement.Exchange.Observer.{refund_escrow, expire_stale_held, stale_held, resolve_as}
use a2a_settlement.Exchange.Observer.Loops.{for_each-keeps}
use a2a_settlement.Exchange.Observer.Expires.{is_some-refund_escrow}
use a2a_settlement.Exchange.Observer.Frame.{find-expire_stale_held}
use a2a_settlement.Exchange.Settlement.Common.{ids_of, add_fee}
use a2a_settlement.Exchange.Settlement.Release.{
  ReleaseResponse, has_unreleased, mark_released, release_funds, release,
}

module _ {R : Type 0} where
  -- The expiry of held escrows keeps every balance's row.
  pub is_some-expire_stale_held :
      (now a : ℕ) (db : Db R)
      → is_some (find a db.balances) ≡ true
      → is_some (find a (expire_stale_held now db).balances) ≡ true
  unfolding expire_stale_held stale_held
  is_some-expire_stale_held now a db h =
      for_each-keeps (λ d. is_some (find a d.balances) ≡ true) (refund_escrow now)
        (λ k e d at known. is_some-refund_escrow now k a e d ∙ known) (stale_held now db) db h

module _ {R : Type 0} (ctx : Context R) where
  find-release_funds :
      (k : ℕ) (e : Escrow) (db : Db R)
      → find k db.escrows ≡ some e
      → find k (release_funds ctx k e db).escrows ≡ some (mark_released ctx.now e)
  unfolding release_funds modify_account add_transaction modify_escrow modify_balance add_fee
  find-release_funds k e db at =
      ground (arith, find-modify_self k (mark_released ctx.now) db.escrows e at)

  -- The requester of a held escrow that is not past its expiry, none of whose dependencies is
  -- unreleased and whose parties have balances, can release it where escrow ids are unique: the
  -- handler returns, reports the escrow's amount and fee as paid, and leaves the escrow
  -- released.
  pub release_returns :
      (k : ℕ) (e : Escrow) (rows : Db R)
      → UniqueKeys rows.escrows
      → find k rows.escrows ≡ some e
      → e.status ≡ EscrowStatus.held
      → ctx.now ≤ e.expires_at
      → has_unreleased (ids_of e.depends_on) rows.escrows ≡ false
      → is_some (find e.requester_id rows.balances) ≡ true
      → is_some (find e.provider_id rows.balances) ≡ true
      → (r : Db R × ReleaseResponse) × (release ctx e.requester_id k rows ≡ ok r)
        × (r.1.amount_paid ≡ e.amount)
        × (r.1.fee_collected ≡ e.fee_amount)
        × (find k r.0.escrows ≡ some (resolve_as EscrowStatus.released ctx.now e))
  unfolding release ◌>>=◌ ◌>>◌ raise_if or_raise
  release_returns k e rows keys at is_open fresh upstream known_r known_p =
      let db = expire_stale_held ctx.now rows in
      let same = find-expire_stale_held ctx.now k e rows keys at (ground (arith, fresh)) in
      elim (Option-cases (find e.requester_id db.balances)) [
        | inl lost ↦
            let here = is_some-expire_stale_held ctx.now e.requester_id rows known_r in
            let impossible : ⊥ = ground (arith, here, lost) in absurd impossible
        | inr (rb, at_r) ↦ elim (Option-cases (find e.provider_id db.balances)) [
          | inl lost ↦
              let here = is_some-expire_stale_held ctx.now e.provider_id rows known_p in
              let impossible : ⊥ = ground (arith, here, lost) in absurd impossible
          | inr (pb, at_p) ↦ (
            (
              release_funds ctx k e db,
              record {
                escrow_id = k;
                amount_paid = e.amount;
                fee_collected = e.fee_amount;
                provider_id = e.provider_id;
              },
            ),
            ground (arith, same, is_open, upstream, ==_refl e.requester_id, at_r, at_p),
            refl,
            refl,
            ground (arith, find-release_funds k e db same, is_open),
          )
        ]
      ]
