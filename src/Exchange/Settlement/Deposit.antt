-- ===== src/Exchange/Settlement/Deposit.antt =====
-- `deposit` of exchange/routes/settlement.py.
pub mod Books
use a2a_settlement.Base.{ℕ, none, some, leb}
use a2a_settlement.Int.{ℤ, pos, ◌+ℤ◌}
use a2a_settlement.Table.{find}
use a2a_settlement.Exchange.Errors.{
  Result, ok, http, raise_if, or_raise, ◌>>=◌, ◌>>◌, amount_not_positive, account_not_found,
}
use a2a_settlement.Exchange.Models.{TxType, Db}
use a2a_settlement.Exchange.Config.{Context}
use a2a_settlement.Exchange.Ledger.{credit, modify_balance, add_transaction}
use a2a_settlement.Exchange.Settlement.Common.{movement}

pub record DepositResponse : Type 0 where
  pub account_id : ℕ
  pub amount : ℕ
  pub new_balance : ℤ

module _ {R : Type 0} (ctx : Context R) where
  unfoldable pub deposited : ℕ → ℕ → Db R → Db R
  deposited current amount db =
      add_transaction (movement ctx.now none none (some current) amount TxType.deposit_tx none)
        (modify_balance current (credit amount) db)

  unfoldable pub deposit : ℕ → ℕ → Db R → Result (Db R × DepositResponse)
  deposit current amount db = do
    raise_if (leb amount 0) (http 400 amount_not_positive)
    bal ← or_raise (find current db.balances) (http 404 account_not_found)
    ok (
      deposited current amount db,
      record { account_id = current; amount = amount; new_balance = bal.available +ℤ pos amount },
    )
