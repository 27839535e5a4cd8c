-- ===== src/Exchange/Settlement/Create.antt =====
-- `create_escrow` of exchange/routes/settlement.py.
pub mod Books
pub mod Opens
use a2a_settlement.Base.{
  ℕ, ◌+◌, Bool, true, false, not, Option, none, some, List, [], ◌∷◌, ltb, ◌==◌, ◌&&◌, ◌||◌, length,
  contains, is_some, if◌then◌else◌,
}
use a2a_settlement.Int.{ℤ, pos, pos_part, ltb_ℤ}
use a2a_settlement.Table.{Table, find, select}
use a2a_settlement.Exchange.Errors.{
  Result, ok, http, raise_if, or_raise, ◌>>=◌, ◌>>◌, amount_out_of_range, escrow_to_self,
  account_not_found, insufficient_balance, provider_not_active, kya_level_too_low,
  unknown_dependency, duplicate_task,
}
use a2a_settlement.Exchange.Models.{
  AttestationLevel, EscrowStatus, SelfDealingClass, Escrow, TxType, Db,
}
use a2a_settlement.Exchange.Config.{Context, minutes}
use a2a_settlement.Exchange.Ledger.{hold, modify_balance, add_escrow, add_transaction}
use a2a_settlement.Exchange.Fees.{fee_amount}
use a2a_settlement.Exchange.Guard.{check}
use a2a_settlement.Exchange.Kya.{KyaGate, check_kya_gate}
use a2a_settlement.Exchange.Observer.{expire_stale_held, is_held}
use a2a_settlement.Exchange.Settlement.Common.{is_active, ids_of, movement}
use Prim.Native.String.{String}
use text.Mathlib.Text.{◌==◌ as str_eq}

-- `amount` may be any integer; `ttl_minutes` is not negative.
pub record EscrowRequest : Type 0 where
  pub provider_id : ℕ
  pub amount : ℤ
  pub task_id : Option String
  pub ttl_minutes : Option ℕ
  pub depends_on : Option (List ℕ)
  pub required_attestation_level : Option AttestationLevel

pub record EscrowResponse : Type 0 where
  pub escrow_id : ℕ
  pub amount : ℕ
  pub fee_amount : ℕ
  pub total_held : ℕ
  pub expires_at : ℕ

-- `req.ttl_minutes or settings.default_ttl_minutes`
abbrev pub ttl_or : Option ℕ → ℕ → ℕ
ttl_or none d = d
ttl_or (some n) d = if n == 0 then d else n

-- The number of rows among these ids that `owner` requested.
unfoldable pub count_owned : ℕ → List ℕ → Table Escrow → ℕ
count_owned owner ids [] = 0
count_owned owner ids ((k, e) ∷ rows) =
    (if contains k ids && e.requester_id == owner then 1 else 0) + count_owned owner ids rows

-- `req.depends_on` is not empty and names an escrow that is unknown or another requester's.
unfoldable pub has_unknown_dependency : ℕ → Option (List ℕ) → Table Escrow → Bool
has_unknown_dependency owner none rows = false
has_unknown_dependency owner (some ids) rows =
    ltb 0 (length ids) && not (count_owned owner ids rows == length ids)

unfoldable pub same_task : Option String → Option String → Bool
same_task none s = false
same_task (some t) none = false
same_task (some t) (some s) = not (str_eq t "") && str_eq t s

-- A held escrow of the same two parties for the same task.
unfoldable pub is_duplicate : ℕ → ℕ → Option String → Escrow → Bool
is_duplicate requester provider task e =
    e.requester_id == requester
    && (e.provider_id == provider && (same_task task e.task_id && is_held e.status))

unfoldable pub some_row : (Escrow → Bool) → Table Escrow → Bool
some_row p [] = false
some_row p ((k, e) ∷ rows) = p e || some_row p rows

module _ {R : Type 0} (ctx : Context R) where
  abbrev pub new_escrow : ℕ → EscrowRequest → KyaGate → Escrow
  new_escrow current req gate = record {
    requester_id = current;
    provider_id = req.provider_id;
    amount = pos_part req.amount;
    fee_amount = fee_amount ctx.settings (pos_part req.amount);
    task_id = req.task_id;
    depends_on = req.depends_on;
    status = EscrowStatus.held;
    dispute_reason = none;
    resolution_strategy = none;
    expires_at = ctx.now + minutes (ttl_or req.ttl_minutes ctx.settings.default_ttl_minutes);
    dispute_expires_at = none;
    warning_sent_at = none;
    resolved_at = none;
    self_dealing_class = some (ctx.classify current req.provider_id);
    required_attestation_level = req.required_attestation_level;
    delivered_content = none;
    provenance_result = none;
    delivered_at = none;
    released_amount = none;
    released_fee = none;
    holdback_amount = none;
    holdback_fee = none;
    score = none;
    efficacy_check_at = none;
    efficacy_criteria = none;
    dispute_filed_by = none;
    dispute_stake_amount = none;
    dispute_stake_status = none;
    evidence_window_closes_at = none;
    mediator_context = none;
    kya_level_at_creation = some gate.required_level;
    hitl_required = gate.hitl_required;
    created_at = ctx.now;
  }

  -- The changes once every check has passed; `id` is the new escrow's UUID.
  unfoldable pub open_escrow : ℕ → ℕ → ℕ → Escrow → Db R → Db R
  open_escrow current id total e db =
      add_transaction (movement ctx.now (some id) (some current) none total TxType.escrow_hold none)
        (add_escrow id e (modify_balance current (hold total) db))

  -- The queries by `depends_on` and by `task_id` read `rows`: nothing was flushed since.
  unfoldable pub create_escrow : ℕ → ℕ → EscrowRequest → Db R → Result (Db R × EscrowResponse)
  create_escrow current id req rows = do
    raise_if
        (ltb_ℤ req.amount (pos ctx.settings.min_escrow)
          || ltb_ℤ (pos ctx.settings.max_escrow) req.amount)
        (http 400 amount_out_of_range)
    raise_if (current == req.provider_id) (http 400 escrow_to_self)
    let amount = pos_part req.amount
    let fee = fee_amount ctx.settings amount
    let db = expire_stale_held ctx.now rows
    bal ← or_raise (find current db.balances) (http 404 account_not_found)
    raise_if (ltb_ℤ bal.available (pos (amount + fee))) (http 400 insufficient_balance)
    db' ← check ctx.settings ctx.now current (amount + fee) db
    provider ← or_raise (find req.provider_id db'.accounts) (http 404 account_not_found)
    raise_if (not (is_active provider.status)) (http 400 provider_not_active)
    let gate = check_kya_gate ctx.settings db' current req.provider_id amount
    raise_if (not gate.allowed) (http 403 kya_level_too_low)
    raise_if (has_unknown_dependency current req.depends_on rows.escrows)
        (http 400 unknown_dependency)
    raise_if (some_row (is_duplicate current req.provider_id req.task_id) rows.escrows)
        (http 409 duplicate_task)
    ok (
      open_escrow current id (amount + fee) (new_escrow current req gate) db',
      record {
        escrow_id = id;
        amount = amount;
        fee_amount = fee;
        total_held = amount + fee;
        expires_at = (new_escrow current req gate).expires_at;
      },
    )
