-- ===== src/Exchange/Observer/Backing.antt =====
-- About the gap of an account under the expiry of exchange/observers.py.
use a2a_settlement.Base.{
  ℕ, ◌+◌, ◌≡◌, ◌≢◌, refl, ◌∙◌, ap, some, arith, is_some, inl, inr, Option-cases, true, ◌&&◌, ltb,
}
use a2a_settlement.Int.{int_laws, parts_of_eq}
use a2a_settlement.Table.{find}
use a2a_settlement.Table.Laws.{find-modify_ne}
use a2a_settlement.Table.Keys.{UniqueKeys, select-Pending}
use a2a_settlement.Exchange.Models.{EscrowStatus, Escrow, Db}
use a2a_settlement.Exchange.Ledger.{
  unhold, modify_balance, modify_escrow, add_transaction, gap, locked,
}
use a2a_settlement.Exchange.Ledger.Gap.{
  only, only_zero, gap-unhold, gap-modify_escrow, gap-add_transaction,
}
use a2a_settlement.Exchange.Observer.Defs.{
  resolve_as, refund_tx, refund_escrow, expire_stale_held, is_held, stale_held,
}
use a2a_settlement.Exchange.Observer.Loops.{for_each-keeps_pending}

locked_of_stale :
    (now : ℕ) (e : Escrow)
    → (is_held e.status && ltb e.expires_at now) ≡ true
    → locked e ≡ e.amount + e.fee_amount
locked_of_stale now e h = ground (arith, h)

module _ {R : Type 0} where
  -- A refund of an escrow whose whole amount is locked keeps the account's gap.
  pub gap-refund_escrow :
      (a now k : ℕ) (e : Escrow) (db : Db R)
      → find k db.escrows ≡ some e
      → locked e ≡ e.amount + e.fee_amount
      → gap a (refund_escrow now k e db) ≡ gap a db
  unfolding refund_escrow modify_balance
  gap-refund_escrow a now k e db at whole = elim (Option-cases (find e.requester_id db.balances)) [
    | inl q ↦ rw (q, refund_escrow) refl
    | inr (b, q) ↦
        let paid = modify_balance e.requester_id (unhold (e.amount + e.fee_amount)) db in
        let closed = modify_escrow k (resolve_as EscrowStatus.expired now) paid in
        rw (q, refund_escrow)
          (omega (
            int_laws,
            parts_of_eq (gap-add_transaction a (refund_tx now k e) closed),
            gap-modify_escrow a k (resolve_as EscrowStatus.expired now) paid e at,
            gap-unhold a e.requester_id (e.amount + e.fee_amount) db (ap is_some q),
            only_zero a e.requester_id,
            ap (only a e.requester_id) whole,
          ))
  ]

  -- A refund writes no other escrow.
  pub find-refund_escrow :
      (now k : ℕ) (e : Escrow) (db : Db R) (j : ℕ)
      → j ≢ k
      → find j (refund_escrow now k e db).escrows ≡ find j db.escrows
  unfolding refund_escrow modify_balance modify_escrow add_transaction
  find-refund_escrow now k e db j ne = elim (Option-cases (find e.requester_id db.balances)) [
    | inl q ↦ rw (q, refund_escrow) refl
    | inr (b, q) ↦
        rw (q, refund_escrow)
          (find-modify_ne j k (resolve_as EscrowStatus.expired now) db.escrows ne)
  ]

  -- Expiring held escrows keeps every account's gap where escrow ids are unique.
  pub gap-expire_stale_held :
      (a now : ℕ) (db : Db R) → UniqueKeys db.escrows → gap a (expire_stale_held now db) ≡ gap a db
  unfolding expire_stale_held stale_held
  gap-expire_stale_held a now db keys =
      for_each-keeps_pending (λ d. gap a d ≡ gap a db) (refund_escrow now)
        (λ e. is_held e.status && ltb e.expires_at now)
        (λ k e d at stale h. gap-refund_escrow a now k e d at (locked_of_stale now e stale) ∙ h)
        (find-refund_escrow now) (stale_held now db) db
        (select-Pending (λ e. is_held e.status && ltb e.expires_at now) db.escrows keys) refl
