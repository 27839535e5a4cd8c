-- ===== src/Exchange/Settlement/Instant.antt =====
-- `instant_settle` of exchange/routes/settlement.py.
pub mod Books
use a2a_settlement.Base.{ℕ, ◌+◌, not, none, some, leb, ltb, ◌==◌}
use a2a_settlement.Int.{ℤ, pos, ◌-ℤ◌, ltb_ℤ}
use a2a_settlement.Table.{find}
use a2a_settlement.Exchange.Errors.{
  Result, ok, http, raise_if, or_raise, ◌>>=◌, ◌>>◌, amount_not_positive, amount_too_large,
  settle_to_self, account_not_found, reputation_too_low, provider_not_active, kya_level_too_low,
  balance_not_found, insufficient_balance,
}
use a2a_settlement.Exchange.Models.{TxType, Db}
use a2a_settlement.Exchange.Config.{Context}
use a2a_settlement.Exchange.Ledger.{
  spend_available, earn, modify_balance, modify_account, add_transaction,
}
use a2a_settlement.Exchange.Fees.{fee_amount}
use a2a_settlement.Exchange.Guard.{check}
use a2a_settlement.Exchange.Kya.{check_kya_gate}
use a2a_settlement.Exchange.Reputation.{reward, default_lam}
use a2a_settlement.Exchange.Settlement.Common.{is_active, movement, fee_movement, add_fee}

pub record InstantSettleResponse : Type 0 where
  pub requester_id : ℕ
  pub provider_id : ℕ
  pub amount : ℕ
  pub fee_amount : ℕ
  pub new_balance : ℤ

module _ {R : Type 0} (ctx : Context R) where
  -- The changes once every check has passed.
  unfoldable pub settle_now : ℕ → ℕ → ℕ → ℕ → Db R → Db R
  settle_now current provider_id amount fee db =
      let sdc = some (ctx.classify current provider_id) in
      modify_account provider_id (reward ctx.floats sdc (default_lam ctx.floats)) (
        add_fee (fee_movement ctx.now none current fee sdc) (
          add_transaction
            (movement ctx.now none (some current) (some provider_id) amount
              TxType.instant_settlement sdc)
            (modify_balance provider_id (earn amount)
              (modify_balance current (spend_available (amount + fee)) db))))

  unfoldable pub instant_settle : ℕ → ℕ → ℕ → Db R → Result (Db R × InstantSettleResponse)
  instant_settle current provider_id amount db = do
    raise_if (leb amount 0) (http 400 amount_not_positive)
    raise_if (ltb ctx.settings.instant_settle_max_amount amount) (http 400 amount_too_large)
    raise_if (current == provider_id) (http 400 settle_to_self)
    let fee = fee_amount ctx.settings amount
    requester ← or_raise (find current db.accounts) (http 404 account_not_found)
    raise_if (ctx.floats.lt requester.reputation ctx.settings.instant_settle_min_reputation)
        (http 403 reputation_too_low)
    provider ← or_raise (find provider_id db.accounts) (http 404 account_not_found)
    raise_if (not (is_active provider.status)) (http 400 provider_not_active)
    raise_if (not (check_kya_gate ctx.settings db current provider_id amount).allowed)
        (http 403 kya_level_too_low)
    bal ← or_raise (find current db.balances) (http 404 balance_not_found)
    raise_if (ltb_ℤ bal.available (pos (amount + fee))) (http 400 insufficient_balance)
    provider_bal ← or_raise (find provider_id db.balances) (http 404 balance_not_found)
    db' ← check ctx.settings ctx.now current (amount + fee) db
    ok (
      settle_now current provider_id amount fee db',
      record {
        requester_id = current;
        provider_id = provider_id;
        amount = amount;
        fee_amount = fee;
        new_balance = bal.available -ℤ pos (amount + fee);
      },
    )
