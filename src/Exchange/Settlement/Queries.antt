-- ===== src/Exchange/Settlement/Queries.antt =====
-- The read-only handlers of exchange/routes/settlement.py: `balance`, `transactions`, `get_escrow`,
-- `list_escrows`, `list_evidence` and `compliance_bundle`. Limits and offsets are natural numbers;
-- rows of one instant keep the order of the table.
pub mod Pages
use a2a_settlement.Base.{
  ℕ, zero, suc, Bool, true, false, not, Option, none, some, List, [], ◌∷◌, map, length, ltb, ◌==◌,
  ◌&&◌, ◌||◌, if◌then◌else◌,
}
use a2a_settlement.Int.{ℤ}
use a2a_settlement.Table.{Table, find}
use a2a_settlement.Exchange.Errors.{
  Result, ok, http, raise_if, or_raise, ◌>>=◌, ◌>>◌, account_not_found, escrow_not_found,
  not_permitted,
}
use a2a_settlement.Exchange.Models.{
  Account, AccountStatus, Balance, EscrowStatus, Escrow, Transaction, EvidenceSubmission,
  ProvenanceResult, Db,
}
use a2a_settlement.Exchange.Ledger.{is_some_of}
use Prim.Native.String.{String}
use text.Mathlib.Text.{◌==◌ as str_eq}

pub record BalanceResponse (R : Type 0) : Type 0 where
  pub account_id : ℕ
  pub bot_name : String
  pub reputation : R
  pub account_status : AccountStatus
  pub available : ℤ
  pub held_in_escrow : ℤ
  pub total_earned : ℕ
  pub total_spent : ℕ

-- The row stands for its columns, without the effective fee rate.
pub record EscrowDetail : Type 0 where
  pub id : ℕ
  pub row : Escrow

pub record EscrowFilter : Type 0 where
  pub task_id : Option String
  pub group_id : Option String
  pub status : Option EscrowStatus
  pub limit : ℕ
  pub offset : ℕ

pub record EscrowListResponse : Type 0 where
  pub escrows : List EscrowDetail
  pub total : ℕ

-- The Merkle root and the number of leaves.
pub record MerkleSummary : Type 0 where
  pub root_hash : String
  pub leaf_count : ℕ

pub record ComplianceBundle : Type 0 where
  pub contract : EscrowDetail
  pub evidence_submissions : List EvidenceSubmission
  pub mediator_rationale : Option ProvenanceResult
  pub mediator_context : Option String
  pub merkle_proof : Option MerkleSummary
  pub exported_at : ℕ

module _ {ℓ} {A : Type ℓ} where
  unfoldable pub rows_where : (A → Bool) → List A → List A
  rows_where p [] = []
  rows_where p (x ∷ xs) = if p x then x ∷ rows_where p xs else rows_where p xs

  unfoldable pub insert_by : (A → A → Bool) → A → List A → List A
  insert_by behind x [] = x ∷ []
  insert_by behind x (y ∷ ys) = if behind x y then y ∷ insert_by behind x ys else x ∷ y ∷ ys

  -- `order_by`
  unfoldable pub sort_by : (A → A → Bool) → List A → List A
  unfolding insert_by
  sort_by behind [] = []
  sort_by behind (x ∷ xs) = insert_by behind x (sort_by behind xs)

  -- `limit(limit).offset(offset)`
  unfoldable pub take_page : ℕ → ℕ → List A → List A
  take_page offset limit [] = []
  take_page (suc offset) limit (x ∷ xs) = take_page offset limit xs
  take_page zero zero (x ∷ xs) = []
  take_page zero (suc limit) (x ∷ xs) = x ∷ take_page zero limit xs

-- `int(x) if x else None`
abbrev pub unless_zero : Option ℕ → Option ℕ
unless_zero none = none
unless_zero (some zero) = none
unless_zero (some (suc n)) = some (suc n)

abbrev pub escrow_detail : ℕ × Escrow → EscrowDetail
escrow_detail (k, e) = record {
  id = k;
  row = record e {
    dispute_stake_amount = unless_zero e.dispute_stake_amount;
    released_amount = unless_zero e.released_amount;
    released_fee = unless_zero e.released_fee;
    holdback_amount = unless_zero e.holdback_amount;
    holdback_fee = unless_zero e.holdback_fee;
  };
}

-- The columns that the contract names.
abbrev pub contract_of : ℕ × Escrow → EscrowDetail
contract_of (k, e) = record {
  id = k;
  row = record e { dispute_stake_amount = unless_zero e.dispute_stake_amount };
}

abbrev escrow_status_code : EscrowStatus → ℕ
escrow_status_code EscrowStatus.held = 0
escrow_status_code EscrowStatus.partially_released = 1
escrow_status_code EscrowStatus.released = 2
escrow_status_code EscrowStatus.refunded = 3
escrow_status_code EscrowStatus.evidence_pending = 4
escrow_status_code EscrowStatus.disputed = 5
escrow_status_code EscrowStatus.expired = 6

abbrev pub is_status : Option EscrowStatus → EscrowStatus → Bool
is_status none s = true
is_status (some wanted) s = escrow_status_code wanted == escrow_status_code s

-- A filter on a column that may be NULL.
abbrev pub is_text_of : Option String → Option String → Bool
is_text_of none t = true
is_text_of (some wanted) none = false
is_text_of (some wanted) (some t) = str_eq t wanted

abbrev pub or_null : Option (Option String) → Option String
or_null none = none
or_null (some t) = t

abbrev pub is_party : ℕ → Escrow → Bool
is_party a e = e.requester_id == a || e.provider_id == a

-- `groups` is the `group_id` column.
abbrev pub is_wanted : ℕ → EscrowFilter → Table (Option String) → ℕ × Escrow → Bool
is_wanted current f groups (k, e) =
    is_party current e
    && (is_text_of f.task_id e.task_id
        && (is_text_of f.group_id (or_null (find k groups)) && is_status f.status e.status))

abbrev pub is_older_escrow : ℕ × Escrow → ℕ × Escrow → Bool
is_older_escrow (j, d) (k, e) = ltb d.created_at e.created_at

abbrev pub is_older_transaction : Transaction → Transaction → Bool
is_older_transaction s t = ltb s.created_at t.created_at

abbrev pub is_later_submission : EvidenceSubmission → EvidenceSubmission → Bool
is_later_submission s t = ltb t.submitted_at s.submitted_at

abbrev pub is_between : ℕ → Transaction → Bool
is_between a tx = is_some_of tx.from_account a || is_some_of tx.to_account a

abbrev pub is_about : ℕ → EvidenceSubmission → Bool
is_about k s = s.escrow_id == k

abbrev pub is_operator_of : AccountStatus → Bool
is_operator_of AccountStatus.operator = true
is_operator_of _ = false

module _ {R : Type 0} where
  -- The join wants both rows.
  unfoldable pub get_balance : ℕ → Db R → Result (BalanceResponse R)
  get_balance current db = do
    bal ← or_raise (find current db.balances) (http 404 account_not_found)
    acct ← or_raise (find current db.accounts) (http 404 account_not_found)
    ok (record {
      account_id = current;
      bot_name = acct.bot_name;
      reputation = acct.reputation;
      account_status = acct.status;
      available = bal.available;
      held_in_escrow = bal.held_in_escrow;
      total_earned = bal.total_earned;
      total_spent = bal.total_spent;
    })

  unfoldable pub list_transactions : ℕ → ℕ → ℕ → Db R → List Transaction
  unfolding rows_where sort_by take_page
  list_transactions current limit offset db =
      take_page offset limit
        (sort_by is_older_transaction (rows_where (is_between current) db.transactions))

  unfoldable pub get_escrow : ℕ → Db R → Result EscrowDetail
  get_escrow k db = do
    e ← or_raise (find k db.escrows) (http 404 escrow_not_found)
    ok (escrow_detail (k, e))

  unfoldable pub list_escrows : ℕ → EscrowFilter → Table (Option String) → Db R → EscrowListResponse
  unfolding rows_where sort_by take_page
  list_escrows current f groups db =
      let found = rows_where (is_wanted current f groups) db.escrows in
      record {
        escrows = map escrow_detail (take_page f.offset f.limit (sort_by is_older_escrow found));
        total = length found;
      }

  -- The evidence on an escrow, oldest first.
  unfoldable pub evidence_of : ℕ → Db R → List EvidenceSubmission
  unfolding rows_where sort_by
  evidence_of k db = sort_by is_later_submission (rows_where (is_about k) db.evidence)

  -- `status` is the caller's.
  unfoldable pub list_evidence : ℕ → AccountStatus → ℕ → Db R → Result (List EvidenceSubmission × ℕ)
  unfolding evidence_of
  list_evidence current status k db = do
    e ← or_raise (find k db.escrows) (http 404 escrow_not_found)
    raise_if (not (is_party current e) && not (is_operator_of status)) (http 403 not_permitted)
    let items = evidence_of k db
    ok (items, length items)

  -- `MerkleTree()` lacks its path, and the exception is swallowed: the proof is never there.
  unfoldable pub compliance_bundle : ℕ → ℕ → AccountStatus → ℕ → Db R → Result ComplianceBundle
  unfolding evidence_of
  compliance_bundle now current status k db = do
    e ← or_raise (find k db.escrows) (http 404 escrow_not_found)
    raise_if (not (is_party current e) && not (is_operator_of status)) (http 403 not_permitted)
    ok (record {
      contract = contract_of (k, e);
      evidence_submissions = evidence_of k db;
      mediator_rationale = e.provenance_result;
      mediator_context = e.mediator_context;
      merkle_proof = none;
      exported_at = now;
    })
