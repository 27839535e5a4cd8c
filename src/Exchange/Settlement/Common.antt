-- ===== src/Exchange/Settlement/Common.antt =====
-- What several handlers of exchange/routes/settlement.py share. The session does not flush before
-- it commits, so a query by anything but a key reads the rows as they were when the handler began.
pub mod Books
use a2a_settlement.Base.{ℕ, Bool, true, false, Option, none, some, List, [], ltb, if◌then◌else◌}
use a2a_settlement.Exchange.Errors.{Result, ok, err}
use a2a_settlement.Exchange.Models.{
  AccountStatus, EscrowStatus, SelfDealingClass, TxType, Transaction, Db,
}
use a2a_settlement.Exchange.Ledger.{add_transaction, modify_account}

abbrev pub is_active : AccountStatus → Bool
is_active AccountStatus.active = true
is_active _ = false

abbrev pub is_partially_released : EscrowStatus → Bool
is_partially_released EscrowStatus.partially_released = true
is_partially_released _ = false

abbrev pub is_released : EscrowStatus → Bool
is_released EscrowStatus.released = true
is_released _ = false

-- status in ("held", "partially_released")
abbrev pub is_settleable : EscrowStatus → Bool
is_settleable EscrowStatus.held = true
is_settleable EscrowStatus.partially_released = true
is_settleable _ = false

-- status in ("disputed", "evidence_pending")
abbrev pub is_in_dispute : EscrowStatus → Bool
is_in_dispute EscrowStatus.disputed = true
is_in_dispute EscrowStatus.evidence_pending = true
is_in_dispute _ = false

-- A nullable list of ids, none and the empty list alike.
abbrev pub ids_of : Option (List ℕ) → List ℕ
ids_of none = []
ids_of (some ks) = ks

abbrev pub movement :
    ℕ → Option ℕ → Option ℕ → Option ℕ → ℕ → TxType → Option SelfDealingClass → Transaction
movement now escrow from to amount type sdc = record {
  escrow_id = escrow;
  from_account = from;
  to_account = to;
  amount = amount;
  tx_type = type;
  self_dealing_class = sdc;
  fee_class = none;
  created_at = now;
}

abbrev pub fee_movement : ℕ → Option ℕ → ℕ → ℕ → Option SelfDealingClass → Transaction
fee_movement now escrow from amount class = record {
  escrow_id = escrow;
  from_account = some from;
  to_account = none;
  amount = amount;
  tx_type = TxType.fee;
  self_dealing_class = none;
  fee_class = class;
  created_at = now;
}

module _ {R : Type 0} where
  -- `if fee > 0: session.add(Transaction(... tx_type="fee" ...))`
  unfoldable pub add_fee : Transaction → Db R → Db R
  add_fee tx db = if ltb 0 tx.amount then add_transaction tx db else db
