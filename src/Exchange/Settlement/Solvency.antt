-- ===== src/Exchange/Settlement/Solvency.antt =====
-- About the available funds under the handlers of exchange/routes/settlement.py that spend them.
use a2a_settlement.Base.{ℕ, ◌+◌, ◌≡◌, refl, inl, inr, Option-cases, false, none, some}
use a2a_settlement.Int.{pos, ltb_ℤ}
use a2a_settlement.Table.{find}
use a2a_settlement.Exchange.Errors.{
  ok, Ensures-or_raise, Ensures-raise_if, Ensures-bind, Ensures-ok,
}
use a2a_settlement.Exchange.Models.{Balance, Escrow, TxType, Db}
use a2a_settlement.Exchange.Config.{Context}
use a2a_settlement.Exchange.Ledger.{
  hold, unhold, earn, spend_available, modify_balance, modify_escrow, modify_account, add_escrow,
  add_transaction,
}
use a2a_settlement.Exchange.Ledger.Solvent.{Solvent, Solvent-gain, Solvent-same, Solvent-spend}
use a2a_settlement.Exchange.Fees.{fee_amount}
use a2a_settlement.Exchange.Guard.Keeps.{check-SameBooks}
use a2a_settlement.Exchange.Observer.{refund_escrow, expire_stale_held, stale_held}
use a2a_settlement.Exchange.Observer.Loops.{for_each-keeps}
use a2a_settlement.Exchange.Settlement.Common.{movement, fee_movement, add_fee}
use a2a_settlement.Exchange.Settlement.Common.Books.{balances-add_fee}
use a2a_settlement.Exchange.Settlement.Create.{
  EscrowRequest, EscrowResponse, open_escrow, create_escrow,
}
use a2a_settlement.Exchange.Settlement.Instant.{InstantSettleResponse, settle_now, instant_settle}
use a2a_settlement.Exchange.Settlement.Dispute.{DisputeResponse, file_dispute, dispute}
use Prim.Native.String.{String}

module _ {R : Type 0} where
  Solvent-refund_escrow :
      (now k : ℕ) (e : Escrow) (db : Db R) → Solvent db → Solvent (refund_escrow now k e db)
  unfolding refund_escrow add_transaction modify_escrow
  Solvent-refund_escrow now k e db h = elim (Option-cases (find e.requester_id db.balances)) [
    | inl q ↦ rw (q, refund_escrow) h
    | inr (b, q) ↦
        rw (q, refund_escrow)
          (Solvent-gain e.requester_id (e.amount + e.fee_amount) (unhold (e.amount + e.fee_amount))
            db (λ x. refl) h)
  ]

  Solvent-expire_stale_held :
      (now : ℕ) (db : Db R) → Solvent db → Solvent (expire_stale_held now db)
  unfolding expire_stale_held stale_held
  Solvent-expire_stale_held now db h =
      for_each-keeps Solvent (refund_escrow now)
        (λ k e d at fine. Solvent-refund_escrow now k e d fine) (stale_held now db) db h

module _ {R : Type 0} (ctx : Context R) where
  -- A creation that succeeds overdraws no balance: if no available funds were negative before,
  -- none are after.
  pub create_escrow-Solvent :
      (current id : ℕ) (req : EscrowRequest) (rows : Db R)
      → Solvent rows
      → (r : Db R × EscrowResponse) → create_escrow ctx current id req rows ≡ ok r
      → Solvent r.0
  unfolding create_escrow open_escrow add_transaction add_escrow
  create_escrow-Solvent current id req rows h = Ensures-raise_if _ _ _ λ range.
      Ensures-raise_if _ _ _ λ other_party. Ensures-or_raise _ _ _ λ b hb.
        Ensures-raise_if _ _ _ λ funds. Ensures-bind _ _ λ db' checked.
          Ensures-or_raise _ _ _ λ p hp. Ensures-raise_if _ _ _ λ p_active.
            Ensures-raise_if _ _ _ λ kya. Ensures-raise_if _ _ _ λ dependencies.
              Ensures-raise_if _ _ _ λ task.
                let same = check-SameBooks ctx.settings ctx.now current _ _ db' checked in
                Ensures-ok _ _ (
                  Solvent-spend current _ (hold _) b db' (rw same.balances hb) funds (λ x. refl)
                    (Solvent-same (expire_stale_held ctx.now rows) db' same.balances
                      (Solvent-expire_stale_held ctx.now rows h)))

  -- A dispute that is filed overdraws no balance.
  pub dispute-Solvent :
      (current k stake : ℕ) (reason : String) (db : Db R)
      → Solvent db
      → (r : Db R × DisputeResponse) → dispute ctx current k stake reason db ≡ ok r
      → Solvent r.0
  unfolding dispute file_dispute add_transaction modify_escrow
  dispute-Solvent current k stake reason db h = Ensures-raise_if _ _ _ λ enough.
      Ensures-or_raise _ _ _ λ e at. Ensures-raise_if _ _ _ λ party.
        Ensures-raise_if _ _ _ λ not_held. Ensures-or_raise _ _ _ λ b hb.
          Ensures-raise_if _ _ _ λ funds.
            Ensures-ok _ _ (Solvent-spend current stake (hold stake) b db hb funds (λ x. refl) h)

  settle_now-Solvent :
      (current provider amount fee : ℕ) (b : Balance) (db : Db R)
      → find current db.balances ≡ some b
      → ltb_ℤ b.available (pos (amount + fee)) ≡ false
      → Solvent db
      → Solvent (settle_now ctx current provider amount fee db)
  unfolding settle_now add_transaction modify_account
  settle_now-Solvent current provider amount fee b db at funds h =
      let class = ctx.classify current provider in
      let spent = modify_balance current (spend_available (amount + fee)) db in
      let paid = modify_balance provider (earn amount) spent in
      let logged =
        add_transaction
          (movement ctx.now none (some current) (some provider) amount TxType.instant_settlement
            (some class))
          paid in
      let fee_tx = fee_movement ctx.now none current fee (some class) in
      Solvent-same logged (add_fee fee_tx logged) (balances-add_fee fee_tx logged) (
        Solvent-gain provider amount (earn amount) spent (λ x. refl)
          (Solvent-spend current (amount + fee) (spend_available (amount + fee)) b db at funds
            (λ x. refl) h))

  -- An instant settlement that succeeds overdraws no balance.
  pub instant_settle-Solvent :
      (current provider amount : ℕ) (db : Db R)
      → Solvent db
      → (r : Db R × InstantSettleResponse) → instant_settle ctx current provider amount db ≡ ok r
      → Solvent r.0
  unfolding instant_settle
  instant_settle-Solvent current provider amount db h = Ensures-raise_if _ _ _ λ positive.
      Ensures-raise_if _ _ _ λ small. Ensures-raise_if _ _ _ λ other_party.
        Ensures-or_raise _ _ _ λ x hx. Ensures-raise_if _ _ _ λ reputable.
          Ensures-or_raise _ _ _ λ y hy. Ensures-raise_if _ _ _ λ active.
            Ensures-raise_if _ _ _ λ kya. Ensures-or_raise _ _ _ λ b hb.
              Ensures-raise_if _ _ _ λ funds. Ensures-or_raise _ _ _ λ pb hp.
                Ensures-bind _ _ λ db' checked.
                  let same = check-SameBooks ctx.settings ctx.now current _ db db' checked in
                  Ensures-ok _ _ (
                    settle_now-Solvent current provider amount (fee_amount ctx.settings amount) b
                      db' (rw same.balances hb) funds (Solvent-same db db' same.balances h))
