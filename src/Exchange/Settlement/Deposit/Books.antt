-- ===== src/Exchange/Settlement/Deposit/Books.antt =====
-- About the books under `deposit` of exchange/routes/settlement.py.
use a2a_settlement.Base.{ℕ, ◌≡◌, refl, ap, true, none, some, is_some}
use a2a_settlement.Int.{pos, ◌+ℤ◌, int_laws, parts_of_eq}
use a2a_settlement.Table.{find}
use a2a_settlement.Table.Laws.{find-modify_self}
use a2a_settlement.Exchange.Errors.{ok, Ensures-or_raise, Ensures-raise_if, Ensures-ok}
use a2a_settlement.Exchange.Models.{Balance, TxType, Db}
use a2a_settlement.Exchange.Config.{Context}
use a2a_settlement.Exchange.Ledger.{net, gap, credit, modify_balance, add_transaction}
use a2a_settlement.Exchange.Ledger.Net.{net-modify_balance, net-add_transaction}
use a2a_settlement.Exchange.Ledger.Gap.{gap-modify_balance, gap-add_transaction, only_zero}
use a2a_settlement.Exchange.Settlement.Common.{movement}
use a2a_settlement.Exchange.Settlement.Deposit.{deposited, deposit, DepositResponse}

module _ {R : Type 0} (ctx : Context R) where
  net-deposited :
      (current amount : ℕ) (db : Db R)
      → is_some (find current db.balances) ≡ true
      → net (deposited ctx current amount db) ≡ net db
  unfolding deposited
  net-deposited current amount db known = omega (
    int_laws,
    net-add_transaction (movement ctx.now none none (some current) amount TxType.deposit_tx none)
        (modify_balance current (credit amount) db),
    net-modify_balance current amount 0 (credit amount) db (λ b. omega int_laws) known,
  )

  gap-deposited :
      (a current amount : ℕ) (db : Db R)
      → is_some (find current db.balances) ≡ true
      → gap a (deposited ctx current amount db) ≡ gap a db
  unfolding deposited
  gap-deposited a current amount db known = omega (
    int_laws,
    parts_of_eq (
        gap-add_transaction a
          (movement ctx.now none none (some current) amount TxType.deposit_tx none)
          (modify_balance current (credit amount) db)),
    gap-modify_balance a current 0 0 (credit amount) db (λ b. omega int_laws) known,
    only_zero a current,
  )

  credited :
      (current amount : ℕ) (db : Db R) (b : Balance)
      → find current db.balances ≡ some b
      → find current (deposited ctx current amount db).balances ≡ some (credit amount b)
  unfolding deposited add_transaction modify_balance
  credited current amount db b hb = find-modify_self current (credit amount) db.balances b hb

  -- A deposit that succeeds credits the account's available funds by its amount, reports the new
  -- balance, and leaves the net position and every account's gap as they were.
  pub deposit_lem :
      (current amount a : ℕ) (db : Db R) (b : Balance) (r : Db R × DepositResponse)
      → find current db.balances ≡ some b
      → deposit ctx current amount db ≡ ok r
      → (net r.0 ≡ net db)
        × (gap a r.0 ≡ gap a db)
        × (find current r.0.balances ≡ some (credit amount b))
        × (r.1.new_balance ≡ b.available +ℤ pos amount)
  unfolding deposit
  deposit_lem current amount a db b r hb q = rest r q
    where
      rest :
          (r : Db R × DepositResponse)
          → deposit ctx current amount db ≡ ok r
          → (net r.0 ≡ net db)
            × (gap a r.0 ≡ gap a db)
            × (find current r.0.balances ≡ some (credit amount b))
            × (r.1.new_balance ≡ b.available +ℤ pos amount)
      rest = Ensures-raise_if _ _ _ λ positive. Ensures-or_raise _ _ _ λ c hc. Ensures-ok _ _ (
        net-deposited current amount db (ap is_some hb),
        gap-deposited a current amount db (ap is_some hb),
        credited current amount db b hb,
        let same : c ≡ b = cc in rw same refl,
      )
