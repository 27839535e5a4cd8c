-- ===== src/Exchange/Ledger/Defs.antt =====
-- The updates that the handlers make to balances, escrows, accounts and the transaction log, and
-- the sums over a database that the invariants speak of.
use a2a_settlement.Base.{
  ℕ, ◌+◌, Bool, false, Option, none, some, List, [], ◌∷◌, ◌==◌, if◌then◌else◌, or_zero,
}
use a2a_settlement.Int.{ℤ, pos, ◌+ℤ◌, ◌-ℤ◌}
use a2a_settlement.Table.{find, modify, append, total, count}
use a2a_settlement.Exchange.Models.{
  Account, Balance, EscrowStatus, StakeStatus, Escrow, TxType, Transaction, Db,
}

-- bal.available -= n; bal.held_in_escrow += n
abbrev pub hold : ℕ → Balance → Balance
hold n b = record b { available = b.available -ℤ pos n; held_in_escrow = b.held_in_escrow +ℤ pos n }

-- bal.available += n; bal.held_in_escrow -= n
abbrev pub unhold : ℕ → Balance → Balance
unhold n b = record b {
  available = b.available +ℤ pos n;
  held_in_escrow = b.held_in_escrow -ℤ pos n;
}

-- bal.held_in_escrow -= n; bal.total_spent += n
abbrev pub spend_held : ℕ → Balance → Balance
spend_held n b = record b {
  held_in_escrow = b.held_in_escrow -ℤ pos n;
  total_spent = b.total_spent + n;
}

-- bal.available -= n; bal.total_spent += n
abbrev pub spend_available : ℕ → Balance → Balance
spend_available n b = record b { available = b.available -ℤ pos n; total_spent = b.total_spent + n }

-- bal.available += n; bal.total_earned += n
abbrev pub earn : ℕ → Balance → Balance
earn n b = record b { available = b.available +ℤ pos n; total_earned = b.total_earned + n }

-- bal.available += n
abbrev pub credit : ℕ → Balance → Balance
credit n b = record b { available = b.available +ℤ pos n }

-- bal.available -= n
abbrev pub debit : ℕ → Balance → Balance
debit n b = record b { available = b.available -ℤ pos n }

-- bal.held_in_escrow -= n
abbrev pub drop_held : ℕ → Balance → Balance
drop_held n b = record b { held_in_escrow = b.held_in_escrow -ℤ pos n }

-- What of an escrow's own funds is still held from its requester, by its status: the whole, or
-- the holdback of a partial release.
abbrev pub locked_in : EscrowStatus → ℕ → ℕ → ℕ
locked_in EscrowStatus.held whole rest = whole
locked_in EscrowStatus.partially_released whole rest = rest
locked_in EscrowStatus.released whole rest = 0
locked_in EscrowStatus.refunded whole rest = 0
locked_in EscrowStatus.evidence_pending whole rest = whole
locked_in EscrowStatus.disputed whole rest = whole
locked_in EscrowStatus.expired whole rest = 0

abbrev pub locked : Escrow → ℕ
locked e =
    locked_in e.status (e.amount + e.fee_amount)
      (or_zero e.holdback_amount + or_zero e.holdback_fee)

abbrev pub staked_as : Option StakeStatus → ℕ → ℕ
staked_as (some StakeStatus.stake_held) n = n
staked_as (some StakeStatus.stake_returned) n = 0
staked_as (some StakeStatus.stake_forfeited) n = 0
staked_as none n = 0

abbrev pub is_some_of : Option ℕ → ℕ → Bool
is_some_of none a = false
is_some_of (some b) a = b == a

-- The stake that is still held from the party who filed a dispute.
abbrev pub staked : Escrow → ℕ
staked e = staked_as e.dispute_stake_status (or_zero e.dispute_stake_amount)

-- What an escrow obliges the exchange to hold from account `a`: its funds and its stake.
abbrev pub owed_by : ℕ → Escrow → ℕ
owed_by a e =
    (if e.requester_id == a then locked e else 0)
    + (if is_some_of e.dispute_filed_by a then staked e else 0)

abbrev pub worth : Balance → ℤ
worth b = b.available +ℤ b.held_in_escrow

abbrev pub fee_of : TxType → ℕ → ℕ
fee_of TxType.fee n = n
fee_of _ n = 0

abbrev pub issue_of : TxType → ℕ → ℕ
issue_of TxType.mint n = n
issue_of TxType.deposit_tx n = n
issue_of _ n = 0

unfoldable pub collected : List Transaction → ℕ
collected [] = 0
collected (tx ∷ txs) = fee_of tx.tx_type tx.amount + collected txs

unfoldable pub issued : List Transaction → ℕ
issued [] = 0
issued (tx ∷ txs) = issue_of tx.tx_type tx.amount + issued txs

abbrev pub held_from : Option Balance → ℤ
held_from none = pos 0
held_from (some b) = b.held_in_escrow

module _ {R : Type 0} where
  unfoldable pub modify_balance : ℕ → (Balance → Balance) → Db R → Db R
  modify_balance k f db = record db { balances = modify k f db.balances }

  unfoldable pub modify_escrow : ℕ → (Escrow → Escrow) → Db R → Db R
  modify_escrow k f db = record db { escrows = modify k f db.escrows }

  unfoldable pub modify_account : ℕ → (Account R → Account R) → Db R → Db R
  modify_account k f db = record db { accounts = modify k f db.accounts }

  unfoldable pub add_escrow : ℕ → Escrow → Db R → Db R
  add_escrow k e db = record db { escrows = append k e db.escrows }

  unfoldable pub add_transaction : Transaction → Db R → Db R
  add_transaction tx db = record db { transactions = tx ∷ db.transactions }

  -- All balances and all fees collected, less what was minted and deposited.
  unfoldable pub net : Db R → ℤ
  net db =
      total worth db.balances +ℤ pos (collected db.transactions) -ℤ pos (issued db.transactions)

  -- What is held from account `a`, less what its escrows and stakes account for.
  unfoldable pub gap : ℕ → Db R → ℤ
  gap a db = held_from (find a db.balances) -ℤ pos (count (owed_by a) db.escrows)
