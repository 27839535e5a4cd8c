-- ===== src/Exchange/Settlement/Batch.antt =====
-- `batch_create_escrow` of exchange/routes/settlement.py. `IndexError` and `ValueError`, which the
-- handler does not catch, answer 500.
pub mod Books
use a2a_settlement.Base.{
  ℕ, zero, suc, ◌+◌, ◌-◌, Bool, true, false, not, Option, none, some, List, [], ◌∷◌, ◌++◌, length,
  get_elem?, ltb, leb, ◌==◌, ◌||◌, if◌then◌else◌,
}
use a2a_settlement.Int.{ℤ, pos, negsuc, pos_part, ltb_ℤ}
use a2a_settlement.Table.{find}
use a2a_settlement.Exchange.Errors.{
  Result, ok, err, http, raise_if, or_raise, ◌>>=◌, ◌>>◌, amount_out_of_range, escrow_to_self,
  account_not_found, insufficient_balance, provider_not_active, kya_level_too_low, bad_reference,
}
use a2a_settlement.Exchange.Models.{Balance, AttestationLevel, Escrow, Db}
use a2a_settlement.Exchange.Config.{Context}
use a2a_settlement.Exchange.Fees.{fee_amount}
use a2a_settlement.Exchange.Guard.{check}
use a2a_settlement.Exchange.Kya.{KyaGate, check_kya_gate}
use a2a_settlement.Exchange.Observer.{expire_stale_held}
use a2a_settlement.Exchange.Settlement.Common.{is_active}
use a2a_settlement.Exchange.Settlement.Create.{
  EscrowRequest, EscrowResponse, new_escrow, open_escrow,
}
use Prim.Native.String.{String}

-- An entry of `depends_on`: `$n` with an integer, `$` with another text, or the id of an escrow.
pub data DepRef : Type 0 where
  batch_item : ℤ → DepRef
  malformed : DepRef
  existing : ℕ → DepRef

pub record BatchEscrowItem : Type 0 where
  pub provider_id : ℕ
  pub amount : ℤ
  pub task_id : Option String
  pub ttl_minutes : Option ℕ
  pub depends_on : Option (List DepRef)
  pub required_attestation_level : Option AttestationLevel

-- `xs[i]`: a negative index counts from the end.
abbrev pub index : List ℕ → ℤ → Option ℕ
index xs (pos i) = get_elem? xs i
index xs (negsuc i) = if ltb i (length xs) then get_elem? xs (length xs - suc i) else none

-- One reference of item `idx`, among the ids created so far.
unfoldable pub resolve_ref : ℕ → List ℕ → DepRef → Result ℕ
resolve_ref idx created (batch_item n) = do
  raise_if (not (ltb_ℤ n (pos idx))) (http 400 bad_reference)
  or_raise (index created n) (http 500 bad_reference)
resolve_ref idx created malformed = err (http 500 bad_reference)
resolve_ref idx created (existing k) = ok k

unfoldable pub resolve_refs : ℕ → List ℕ → List DepRef → Result (List ℕ)
unfolding resolve_ref
resolve_refs idx created [] = ok []
resolve_refs idx created (r ∷ rs) = do
  k ← resolve_ref idx created r
  ks ← resolve_refs idx created rs
  ok (k ∷ ks)

-- An empty list of references is stored as none.
unfoldable pub resolve_deps : ℕ → List ℕ → Option (List DepRef) → Result (Option (List ℕ))
unfolding resolve_refs
resolve_deps idx created none = ok none
resolve_deps idx created (some []) = ok none
resolve_deps idx created (some (r ∷ rs)) = do ks ← resolve_refs idx created (r ∷ rs); ok (some ks)

module _ {R : Type 0} (ctx : Context R) where
  abbrev pub item_hold : BatchEscrowItem → ℕ
  item_hold item = pos_part item.amount + fee_amount ctx.settings (pos_part item.amount)

  -- The first loop: the checks of each item, and `total_needed`.
  unfoldable pub total_needed : ℕ → List (ℕ × BatchEscrowItem) → Result ℕ
  total_needed current [] = ok 0
  total_needed current ((id, item) ∷ items) = do
    raise_if
        (ltb_ℤ item.amount (pos ctx.settings.min_escrow)
          || ltb_ℤ (pos ctx.settings.max_escrow) item.amount)
        (http 400 amount_out_of_range)
    raise_if (current == item.provider_id) (http 400 escrow_to_self)
    rest ← total_needed current items
    ok (item_hold item + rest)

  abbrev pub item_request : BatchEscrowItem → Option (List ℕ) → EscrowRequest
  item_request item deps = record {
    provider_id = item.provider_id;
    amount = item.amount;
    task_id = item.task_id;
    ttl_minutes = item.ttl_minutes;
    depends_on = deps;
    required_attestation_level = item.required_attestation_level;
  }

  -- A row of a batch is not classified.
  abbrev pub batch_escrow : ℕ → BatchEscrowItem → Option (List ℕ) → KyaGate → Escrow
  batch_escrow current item deps gate =
      record (new_escrow ctx current (item_request item deps) gate) { self_dealing_class = none }

  abbrev pub item_response : ℕ → BatchEscrowItem → Escrow → EscrowResponse
  item_response id item e = record {
    escrow_id = id;
    amount = pos_part item.amount;
    fee_amount = fee_amount ctx.settings (pos_part item.amount);
    total_held = item_hold item;
    expires_at = e.expires_at;
  }

  -- The second loop, from item `idx` on; each item comes with its new row's UUID.
  unfoldable pub create_items :
      ℕ → ℕ → List ℕ → List (ℕ × BatchEscrowItem) → Db R → Result (Db R × List EscrowResponse)
  unfolding resolve_deps
  create_items current idx created [] db = ok (db, [])
  create_items current idx created ((id, item) ∷ items) db = do
    provider ← or_raise (find item.provider_id db.accounts) (http 404 account_not_found)
    raise_if (not (is_active provider.status)) (http 400 provider_not_active)
    let gate = check_kya_gate ctx.settings db current item.provider_id (pos_part item.amount)
    raise_if (not gate.allowed) (http 403 kya_level_too_low)
    deps ← resolve_deps idx created item.depends_on
    let e = batch_escrow current item deps gate
    rest ←
        create_items current (suc idx) (created ++ id ∷ []) items
          (open_escrow ctx current id (item_hold item) e db)
    ok (rest.0, item_response id item e ∷ rest.1)

  unfoldable pub batch_create_escrow :
      ℕ → List (ℕ × BatchEscrowItem) → Db R → Result (Db R × List EscrowResponse)
  unfolding total_needed create_items
  batch_create_escrow current items rows = do
    let db = expire_stale_held ctx.now rows
    bal ← or_raise (find current db.balances) (http 404 account_not_found)
    needed ← total_needed current items
    raise_if (ltb_ℤ bal.available (pos needed)) (http 400 insufficient_balance)
    db' ← check ctx.settings ctx.now current needed db
    create_items current 0 [] items db'
