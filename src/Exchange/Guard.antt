-- ===== src/Exchange/Guard.antt =====
-- The spending guard of exchange/spending_guard.py.
pub mod Keeps
pub mod Limits
use a2a_settlement.Base.{
  ℕ, ◌+◌, ◌-◌, Bool, true, false, Option, none, some, List, [], ◌∷◌, ltb, leb, ◌==◌, ◌&&◌,
  if◌then◌else◌,
}
use a2a_settlement.Table.{find}
use a2a_settlement.Exchange.Errors.{
  HttpError, Result, ok, http, raise_if, ◌>>◌, account_frozen, daily_limit_exceeded,
  velocity_exceeded,
}
use a2a_settlement.Exchange.Models.{Account, TxType, Transaction, Db}
use a2a_settlement.Exchange.Config.{Settings, minutes, hours}
use a2a_settlement.Exchange.Ledger.{modify_account}

is_escrow_hold : TxType → Bool
is_escrow_hold TxType.escrow_hold = true
is_escrow_hold _ = false

is_from : ℕ → Option ℕ → Bool
is_from a none = false
is_from a (some b) = b == a

-- `_spent_since`
unfoldable pub spent_since : List Transaction → ℕ → ℕ → ℕ
unfolding is_escrow_hold is_from
spent_since [] account since = 0
spent_since (tx ∷ txs) account since =
    (if is_from account tx.from_account && (is_escrow_hold tx.tx_type && leb since tx.created_at)
      then tx.amount
      else 0)
    + spent_since txs account since

-- The refusal that follows `_freeze_account`.
abbrev pub freezing : ℕ → ℕ → HttpError → HttpError
freezing account until e = record e { freeze = some (account, until) }

abbrev pub frozen_after : ℕ → Option ℕ → Bool
frozen_after now none = false
frozen_after now (some until) = ltb now until

module _ {R : Type 0} (st : Settings R) (now : ℕ) where
  -- The rolling-window test on an account's own limit: a breach freezes and raises.
  unfoldable pub check_daily : List Transaction → ℕ → Option ℕ → ℕ → Result (Unit {0})
  check_daily txs account none new_hold = ok tt
  check_daily txs account (some limit) new_hold =
      raise_if
        (ltb 0 limit
          && ltb limit (spent_since txs account (now - hours st.spending_window_hours) + new_hold))
        (freezing account (now + minutes st.spending_freeze_minutes)
          (http 400 daily_limit_exceeded))

  unfoldable pub check_velocity : List Transaction → ℕ → ℕ → Result (Unit {0})
  check_velocity txs account new_hold =
      raise_if
        (ltb 0 st.hourly_velocity_limit
          && ltb st.hourly_velocity_limit (spent_since txs account (now - hours 1) + new_hold))
        (freezing account (now + minutes st.spending_freeze_minutes) (http 400 velocity_exceeded))

  abbrev pub thaw : Option ℕ → ℕ → Db R → Db R
  thaw none account db = db
  thaw (some until) account db = modify_account account (λ a. record a { frozen_until = none }) db

  unfoldable pub check_account : ℕ → ℕ → Db R → Account R → Result (Db R)
  check_account account new_hold db acct = do
    raise_if (frozen_after now acct.frozen_until) (http 423 account_frozen)
    check_daily db.transactions account acct.daily_spend_limit new_hold
    check_velocity db.transactions account new_hold
    ok (thaw acct.frozen_until account db)

  -- `SpendingLimitGuard.check`
  unfoldable pub check : ℕ → ℕ → Db R → Result (Db R)
  check account new_hold db = elim (find account db.accounts) [
    | none ↦ ok db
    | some acct ↦ check_account account new_hold db acct
  ]
