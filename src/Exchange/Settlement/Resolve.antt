-- ===== src/Exchange/Settlement/Resolve.antt =====
-- `resolve` and `_settle_dispute_stake` of exchange/routes/settlement.py.
pub mod Stake
pub mod Books
use a2a_settlement.Base.{
  ℕ, ◌+◌, Bool, true, false, not, Option, none, some, ltb, ◌==◌, ◌&&◌, or_zero, if◌then◌else◌,
}
use a2a_settlement.Table.{find}
use a2a_settlement.Exchange.Errors.{
  Result, ok, http, raise_if, or_raise, ◌>>=◌, ◌>>◌, bad_resolution, not_permitted,
  escrow_not_found, wrong_status, balance_not_found,
}
use a2a_settlement.Exchange.Models.{
  AccountStatus, Account, EscrowStatus, StakeStatus, ProvenanceResult, Escrow, TxType, Db,
}
use a2a_settlement.Exchange.Config.{Context}
use a2a_settlement.Exchange.Ledger.{
  hold, unhold, drop_held, spend_held, earn, modify_balance, modify_escrow, modify_account,
  add_transaction,
}
use a2a_settlement.Exchange.Observer.{resolve_as}
use a2a_settlement.Exchange.Reputation.{
  reward, punish, default_lam, apply_provenance_reputation_penalty,
}
use a2a_settlement.Exchange.Settlement.Common.{is_in_dispute, movement, fee_movement, add_fee}
use Prim.Native.String.{String}

pub data Resolution : Type 0 where
  to_release to_refund other : Resolution

pub data StakeRuling : Type 0 where
  return_stake forfeit : StakeRuling

pub record ResolveRequest : Type 0 where
  pub resolution : Resolution
  pub strategy : Option String
  pub provenance_result : Option ProvenanceResult
  pub mediator_context : Option String
  pub stake_ruling : Option StakeRuling

-- The two response models: what is paid to the provider, or returned to the requester.
pub data ResolveResponse : Type 0 where
  paid : (escrow_id amount_paid fee_collected provider_id : ℕ) → ResolveResponse
  returned : (escrow_id amount_returned requester_id : ℕ) → ResolveResponse

unfoldable pub is_known : Resolution → Bool
is_known Resolution.other = false
is_known _ = true

unfoldable pub is_operator : AccountStatus → Bool
is_operator AccountStatus.operator = true
is_operator _ = false

unfoldable pub is_forfeit : Option StakeRuling → Bool
is_forfeit (some forfeit) = true
is_forfeit _ = false

unfoldable pub is_stake_held : Option StakeStatus → Bool
is_stake_held (some StakeStatus.stake_held) = true
is_stake_held _ = false

abbrev pub counterparty : ℕ → Escrow → ℕ
counterparty filer e = if filer == e.requester_id then e.provider_id else e.requester_id

abbrev pub set_stake : StakeStatus → Escrow → Escrow
set_stake s e = record e { dispute_stake_status = some s }

-- `x if given else what was there`
abbrev or_keep {ℓ} : {A : Type ℓ} → Option A → Option A → Option A
or_keep none old = old
or_keep (some a) old = some a

abbrev pub note_ruling : ResolveRequest → Escrow → Escrow
note_ruling req e = record e {
  resolution_strategy = req.strategy;
  provenance_result = or_keep req.provenance_result e.provenance_result;
  mediator_context = or_keep req.mediator_context e.mediator_context;
}

module _ {R : Type 0} (now : ℕ) where
  unfoldable pub forfeit_stake : ℕ → ℕ → ℕ → Escrow → Db R → Db R
  forfeit_stake k filer stake e db = modify_escrow k (set_stake StakeStatus.stake_forfeited) (
      add_transaction
        (movement now (some k) (some filer) (some (counterparty filer e)) stake
          TxType.dispute_stake_forfeit none)
        (modify_balance (counterparty filer e) (earn stake)
          (modify_balance filer (drop_held stake) db)))

  unfoldable pub give_back_stake : ℕ → ℕ → ℕ → Escrow → Db R → Db R
  give_back_stake k filer stake e db = modify_escrow k (set_stake StakeStatus.stake_returned) (
      add_transaction
        (movement now (some k) none (some filer) stake TxType.dispute_stake_return none)
        (modify_balance filer (unhold stake) db))

  unfoldable pub settle_filed_stake : ℕ → ℕ → ℕ → Escrow → Option StakeRuling → Db R → Db R
  settle_filed_stake k filer stake e ruling db = elim (find filer db.balances) [
    | none ↦ db
    | some _ ↦
        if is_forfeit ruling
        then forfeit_stake k filer stake e db
        else give_back_stake k filer stake e db
  ]

  -- `_settle_dispute_stake`; a stake of zero and a missing one are both falsy.
  unfoldable pub settle_dispute_stake : ℕ → Escrow → Option StakeRuling → Db R → Db R
  settle_dispute_stake k e ruling db = elim e.dispute_filed_by [
    | none ↦ db
    | some filer ↦
        if ltb 0 (or_zero e.dispute_stake_amount) && is_stake_held e.dispute_stake_status
        then settle_filed_stake k filer (or_zero e.dispute_stake_amount) e ruling db
        else db
  ]

module _ {R : Type 0} (ctx : Context R) where
  -- resolution == "release": the payment, and the provider's reputation.
  unfoldable pub resolve_release : ℕ → Escrow → Option ProvenanceResult → Db R → Db R
  resolve_release k e provenance db =
      modify_account e.provider_id
        (λ a.
          apply_provenance_reputation_penalty ctx.floats provenance
            (reward ctx.floats e.self_dealing_class (default_lam ctx.floats) a))
        (add_fee (fee_movement ctx.now (some k) e.requester_id e.fee_amount e.self_dealing_class) (
          add_transaction
            (movement ctx.now (some k) (some e.requester_id) (some e.provider_id) e.amount
              TxType.escrow_release e.self_dealing_class)
            (modify_escrow k (resolve_as EscrowStatus.released ctx.now) (
              modify_balance e.provider_id (earn e.amount)
                (modify_balance e.requester_id (spend_held (e.amount + e.fee_amount)) db)))))

  unfoldable pub resolve_refund : ℕ → Escrow → Option ProvenanceResult → Db R → Db R
  resolve_refund k e provenance db =
      modify_account e.provider_id
        (λ a.
          apply_provenance_reputation_penalty ctx.floats provenance
            (punish ctx.floats e.self_dealing_class a))
        (add_transaction
          (movement ctx.now (some k) none (some e.requester_id) (e.amount + e.fee_amount)
            TxType.escrow_refund e.self_dealing_class)
          (modify_escrow k (resolve_as EscrowStatus.refunded ctx.now)
            (modify_balance e.requester_id (unhold (e.amount + e.fee_amount)) db)))

  -- What follows the stake's settlement, for each of the two resolutions.
  unfoldable pub carry_out :
      ResolveRequest → ℕ → Escrow → Resolution → Db R → Result (Db R × ResolveResponse)
  carry_out req k e Resolution.to_release db = do
    requester_bal ← or_raise (find e.requester_id db.balances) (http 404 balance_not_found)
    provider_bal ← or_raise (find e.provider_id db.balances) (http 404 balance_not_found)
    ok (resolve_release k e req.provenance_result db, paid k e.amount e.fee_amount e.provider_id)
  carry_out req k e _ db = do
    requester_bal ← or_raise (find e.requester_id db.balances) (http 404 balance_not_found)
    ok (
      resolve_refund k e req.provenance_result db,
      returned k (e.amount + e.fee_amount) e.requester_id,
    )

  unfoldable pub resolve :
      AccountStatus → ℕ → ResolveRequest → Db R → Result (Db R × ResolveResponse)
  resolve caller k req db = do
    raise_if (not (is_known req.resolution)) (http 400 bad_resolution)
    raise_if (not (is_operator caller)) (http 403 not_permitted)
    e ← or_raise (find k db.escrows) (http 404 escrow_not_found)
    raise_if (not (is_in_dispute e.status)) (http 400 wrong_status)
    carry_out req k (note_ruling req e) req.resolution (
        settle_dispute_stake ctx.now k (note_ruling req e) req.stake_ruling
          (modify_escrow k (note_ruling req) db))
