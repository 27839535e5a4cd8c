-- ===== src/Exchange/Settlement/Create/Books.antt =====
-- About the books under `create_escrow` of exchange/routes/settlement.py.
use a2a_settlement.Base.{ℕ, ◌+◌, ◌≡◌, refl, ap, ◌∙◌, true, none, some, arith, is_some}
use a2a_settlement.Int.{pos_part, int_laws, parts_of_eq}
use a2a_settlement.Table.{find}
use a2a_settlement.Table.Keys.{UniqueKeys}
use a2a_settlement.Exchange.Errors.{
  ok, Ensures-or_raise, Ensures-raise_if, Ensures-ok, Ensures-bind,
}
use a2a_settlement.Exchange.Models.{EscrowStatus, Escrow, TxType, Db}
use a2a_settlement.Exchange.Config.{Context}
use a2a_settlement.Exchange.Kya.{check_kya_gate}
use a2a_settlement.Exchange.Ledger.{net, gap, hold, owed_by, modify_balance, add_escrow}
use a2a_settlement.Exchange.Ledger.Net.{net-hold, net-add_escrow, net-add_transaction}
use a2a_settlement.Exchange.Ledger.Gap.{only, gap-hold, gap-add_escrow, gap-add_transaction}
use a2a_settlement.Exchange.Guard.Keeps.{SameBooks-net, SameBooks-gap, check-SameBooks}
use a2a_settlement.Exchange.Observer.Conserves.{net-expire_stale_held}
use a2a_settlement.Exchange.Observer.Backing.{gap-expire_stale_held}
use a2a_settlement.Exchange.Settlement.Common.{movement}
use a2a_settlement.Exchange.Settlement.Create.{
  EscrowResponse, EscrowRequest, new_escrow, open_escrow, create_escrow,
}

opened_owed :
    (a current : ℕ) (e : Escrow)
    → e.requester_id ≡ current
    → e.status ≡ EscrowStatus.held
    → e.dispute_filed_by ≡ none
    → owed_by a e ≡ only a current (e.amount + e.fee_amount)
opened_owed a current e mine fresh undisputed = ground (arith, mine, fresh, undisputed)

module _ {R : Type 0} (ctx : Context R) where
  pub net-open_escrow :
      (current id total : ℕ) (e : Escrow) (db : Db R)
      → net (open_escrow ctx current id total e db) ≡ net db
  unfolding open_escrow
  net-open_escrow current id total e db =
      let paid = modify_balance current (hold total) db in
      omega (
        int_laws,
        net-add_transaction
            (movement ctx.now (some id) (some current) none total TxType.escrow_hold none)
            (add_escrow id e paid),
        parts_of_eq (net-add_escrow id e paid),
        net-hold current total db,
      )

  -- A creation that succeeds neither makes nor loses money.
  pub net-create_escrow :
      (current id : ℕ) (req : EscrowRequest) (rows : Db R)
      → (r : Db R × EscrowResponse) → create_escrow ctx current id req rows ≡ ok r
      → net r.0 ≡ net rows
  unfolding create_escrow
  net-create_escrow current id req rows = Ensures-raise_if _ _ _ λ range.
      Ensures-raise_if _ _ _ λ other_party. Ensures-or_raise _ _ _ λ b hb.
        Ensures-raise_if _ _ _ λ funds. Ensures-bind _ _ λ db' checked.
          Ensures-or_raise _ _ _ λ p hp. Ensures-raise_if _ _ _ λ p_active.
            Ensures-raise_if _ _ _ λ kya. Ensures-raise_if _ _ _ λ dependencies.
              Ensures-raise_if _ _ _ λ task. Ensures-ok _ _ (
                net-open_escrow current id _ _ db'
                ∙ (SameBooks-net (check-SameBooks ctx.settings ctx.now current _ _ db' checked)
                    ∙ net-expire_stale_held ctx.now rows))

  pub gap-open_escrow :
      (a current id : ℕ) (e : Escrow) (db : Db R)
      → e.requester_id ≡ current
      → e.status ≡ EscrowStatus.held
      → e.dispute_filed_by ≡ none
      → is_some (find current db.balances) ≡ true
      → gap a (open_escrow ctx current id (e.amount + e.fee_amount) e db) ≡ gap a db
  unfolding open_escrow
  gap-open_escrow a current id e db mine fresh undisputed known =
      let total = e.amount + e.fee_amount in
      let paid = modify_balance current (hold total) db in
      omega (
        int_laws,
        parts_of_eq (
            gap-add_transaction a
              (movement ctx.now (some id) (some current) none total TxType.escrow_hold none)
              (add_escrow id e paid)),
        gap-add_escrow a id e paid,
        gap-hold a current total db known,
        opened_owed a current e mine fresh undisputed,
      )

  -- A creation that succeeds on a database with unique escrow ids keeps every account's gap
  -- between what is held from it and what its escrows and stakes account for.
  pub gap-create_escrow :
      (current id a : ℕ) (req : EscrowRequest) (rows : Db R)
      → UniqueKeys rows.escrows
      → (r : Db R × EscrowResponse) → create_escrow ctx current id req rows ≡ ok r
      → gap a r.0 ≡ gap a rows
  unfolding create_escrow
  gap-create_escrow current id a req rows keys = Ensures-raise_if _ _ _ λ range.
      Ensures-raise_if _ _ _ λ other_party. Ensures-or_raise _ _ _ λ b hb.
        Ensures-raise_if _ _ _ λ funds. Ensures-bind _ _ λ db' checked.
          Ensures-or_raise _ _ _ λ p hp. Ensures-raise_if _ _ _ λ p_active.
            Ensures-raise_if _ _ _ λ kya. Ensures-raise_if _ _ _ λ dependencies.
              Ensures-raise_if _ _ _ λ task.
                let same = check-SameBooks ctx.settings ctx.now current _ _ db' checked in
                Ensures-ok _ _ (
                  gap-open_escrow a current id
                    (new_escrow ctx current req (
                      check_kya_gate ctx.settings db' current req.provider_id
                        (pos_part req.amount)))
                    db' refl refl refl (rw same.balances (ap is_some hb))
                  ∙ (SameBooks-gap same a ∙ gap-expire_stale_held a ctx.now rows keys))
