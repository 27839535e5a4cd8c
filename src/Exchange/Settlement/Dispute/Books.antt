-- ===== src/Exchange/Settlement/Dispute/Books.antt =====
-- About the books under `dispute` of exchange/routes/settlement.py.
use a2a_settlement.Base.{ℕ, ◌+◌, ◌≡◌, ap, true, none, some, arith, is_some}
use a2a_settlement.Int.{int_laws, parts_of_eq}
use a2a_settlement.Table.{find}
use a2a_settlement.Exchange.Errors.{ok, Ensures-or_raise, Ensures-raise_if, Ensures-ok}
use a2a_settlement.Exchange.Models.{Escrow, TxType, Db}
use a2a_settlement.Exchange.Config.{Context}
use a2a_settlement.Exchange.Ledger.{net, gap, owed_by, hold, modify_balance, add_transaction}
use a2a_settlement.Exchange.Ledger.Net.{net-hold, net-modify_escrow, net-add_transaction}
use a2a_settlement.Exchange.Ledger.Gap.{only, gap-hold, gap-modify_escrow, gap-add_transaction}
use a2a_settlement.Exchange.Observer.{is_held}
use a2a_settlement.Exchange.Settlement.Common.{movement}
use a2a_settlement.Exchange.Settlement.Dispute.{
  DisputeResponse, mark_disputed, file_dispute, dispute,
}
use Prim.Native.String.{String}

-- An escrow that is still held has no stake.
abbrev pub IsUndisputed : Escrow → Type 0
IsUndisputed e = is_held e.status ≡ true → e.dispute_stake_status ≡ none

module _ {R : Type 0} (ctx : Context R) where
  -- Filing a dispute neither makes nor loses money.
  pub net-dispute :
      (current k stake : ℕ) (reason : String) (db : Db R)
      → (r : Db R × DisputeResponse) → dispute ctx current k stake reason db ≡ ok r
      → net r.0 ≡ net db
  unfolding dispute file_dispute
  net-dispute current k stake reason db =
      let paid = modify_balance current (hold stake) db in
      let tx = movement ctx.now (some k) (some current) none stake TxType.dispute_stake_hold none in
      Ensures-raise_if _ _ _ λ enough. Ensures-or_raise _ _ _ λ e at.
        Ensures-raise_if _ _ _ λ party. Ensures-raise_if _ _ _ λ not_held.
          Ensures-or_raise _ _ _ λ b hb. Ensures-raise_if _ _ _ λ funds. Ensures-ok _ _ (
            omega (
              int_laws,
              parts_of_eq (
                  net-modify_escrow k (mark_disputed ctx current stake reason)
                    (add_transaction tx paid)),
              net-add_transaction tx paid,
              net-hold current stake db,
            ))

  disputed_owed :
      (a current stake : ℕ) (reason : String) (e : Escrow)
      → is_held e.status ≡ true
      → e.dispute_stake_status ≡ none
      → owed_by a (mark_disputed ctx current stake reason e) ≡ owed_by a e + only a current stake
  disputed_owed a current stake reason e h u = ground (arith, h, u)

  -- A dispute that is filed on an escrow without an earlier stake while it is held keeps every
  -- account's gap: the escrow stays owed, and the stake with it.
  pub gap-dispute :
      (current k stake a : ℕ) (reason : String) (db : Db R)
      → ((e : Escrow) → find k db.escrows ≡ some e → IsUndisputed e)
      → (r : Db R × DisputeResponse) → dispute ctx current k stake reason db ≡ ok r
      → gap a r.0 ≡ gap a db
  unfolding dispute file_dispute modify_balance add_transaction
  gap-dispute current k stake a reason db undisputed =
      let paid = modify_balance current (hold stake) db in
      let tx = movement ctx.now (some k) (some current) none stake TxType.dispute_stake_hold none in
      Ensures-raise_if _ _ _ λ enough. Ensures-or_raise _ _ _ λ e at.
        Ensures-raise_if _ _ _ λ party. Ensures-raise_if _ _ _ λ not_held.
          Ensures-or_raise _ _ _ λ b hb. Ensures-raise_if _ _ _ λ funds. Ensures-ok _ _ (
            let still : is_held e.status ≡ true = ground (arith, not_held) in
            omega (
              int_laws,
              gap-modify_escrow a k (mark_disputed ctx current stake reason)
                  (add_transaction tx paid) e at,
              parts_of_eq (gap-add_transaction a tx paid),
              gap-hold a current stake db (ap is_some hb),
              disputed_owed a current stake reason e still (undisputed e at still),
            ))
