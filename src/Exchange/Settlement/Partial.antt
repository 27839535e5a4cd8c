-- ===== src/Exchange/Settlement/Partial.antt =====
-- `partial_release` of exchange/routes/settlement.py.
pub mod Books
use a2a_settlement.Base.{
  ℕ, ◌+◌, ◌-◌, ◌*◌, ◌/◌, Bool, not, Option, none, some, ◌==◌, is_some, if◌then◌else◌,
}
use a2a_settlement.Table.{find}
use a2a_settlement.Exchange.Errors.{
  Result, ok, http, raise_if, or_raise, ◌>>=◌, ◌>>◌, escrow_not_found, not_permitted, wrong_status,
  balance_not_found,
}
use a2a_settlement.Exchange.Models.{EscrowStatus, Escrow, TxType, Db}
use a2a_settlement.Exchange.Config.{Context}
use a2a_settlement.Exchange.Ledger.{
  spend_held, unhold, earn, modify_balance, modify_escrow, modify_account, add_transaction,
}
use a2a_settlement.Exchange.Observer.{expire_stale_held, is_held}
use a2a_settlement.Exchange.Reputation.{reward}
use a2a_settlement.Exchange.Settlement.Common.{movement, fee_movement, add_fee}
use Prim.Native.String.{String}

-- `release_percent` lies between 1 and 99, and `score` between 0 and 100, by the request's model.
pub record PartialReleaseRequest : Type 0 where
  pub release_percent : ℕ
  pub score : Option ℕ
  pub efficacy_check_at : Option ℕ
  pub efficacy_criteria : Option String

pub record PartialReleaseResponse : Type 0 where
  pub escrow_id : ℕ
  pub status : EscrowStatus
  pub released_amount : ℕ
  pub fee_collected : ℕ
  pub holdback_amount : ℕ
  pub holdback_fee : ℕ
  pub provider_id : ℕ

-- The share of a release, `n * pct // 100`.
unfoldable pub share : ℕ → ℕ → ℕ
share pct n = n * pct / 100

module _ (req : PartialReleaseRequest) (e : Escrow) where
  abbrev pub release_amount : ℕ
  release_amount = share req.release_percent e.amount

  abbrev pub release_fee : ℕ
  release_fee = share req.release_percent e.fee_amount

  abbrev pub held_back_amount : ℕ
  held_back_amount = e.amount - release_amount

  abbrev pub held_back_fee : ℕ
  held_back_fee = e.fee_amount - release_fee

-- What the escrow's columns record of the split.
abbrev pub split : PartialReleaseRequest → Escrow → Escrow
split req e = record e {
  released_amount = some (release_amount req e);
  released_fee = some (release_fee req e);
  holdback_amount = some (held_back_amount req e);
  holdback_fee = some (held_back_fee req e);
  score = req.score;
}

abbrev pub await_efficacy : PartialReleaseRequest → Escrow → Escrow
await_efficacy req e = record e {
  status = EscrowStatus.partially_released;
  efficacy_check_at = req.efficacy_check_at;
  efficacy_criteria = req.efficacy_criteria;
}

abbrev pub close_released : ℕ → Escrow → Escrow
close_released now e = record e { status = EscrowStatus.released; resolved_at = some now }

module _ {R : Type 0} (ctx : Context R) where
  -- The payment of the released share.
  unfoldable pub pay_share : ℕ → PartialReleaseRequest → Escrow → Db R → Db R
  pay_share k req e db =
      add_fee (fee_movement ctx.now (some k) e.requester_id (release_fee req e) none) (
        add_transaction
          (movement ctx.now (some k) (some e.requester_id) (some e.provider_id)
            (release_amount req e) TxType.escrow_partial_release none)
          (modify_escrow k (split req) (
            modify_balance e.provider_id (earn (release_amount req e)) (
              modify_balance e.requester_id (spend_held (release_amount req e + release_fee req e))
                db))))

  -- With no efficacy review to come the holdback goes back to the requester at once.
  unfoldable pub return_holdback : ℕ → PartialReleaseRequest → Escrow → Db R → Db R
  return_holdback k req e db =
      let rest = held_back_amount req e + held_back_fee req e in
      modify_escrow k (close_released ctx.now) (
        add_transaction
          (movement ctx.now (some k) none (some e.requester_id) rest TxType.escrow_holdback_refund
            none)
          (modify_balance e.requester_id (unhold rest) db))

  -- The changes once every check has passed.
  unfoldable pub release_share : ℕ → PartialReleaseRequest → Escrow → Db R → Db R
  release_share k req e db =
      modify_account e.provider_id
        (reward ctx.floats e.self_dealing_class
          (ctx.floats.mul (ctx.floats.percent req.release_percent) (ctx.floats.literal 1 1)))
        (if is_some req.efficacy_check_at
          then modify_escrow k (await_efficacy req) (pay_share k req e db)
          else return_holdback k req e (pay_share k req e db))

  unfoldable pub partial_release :
      ℕ → ℕ → PartialReleaseRequest → Db R → Result (Db R × PartialReleaseResponse)
  partial_release current k req rows = do
    let db = expire_stale_held ctx.now rows
    e ← or_raise (find k db.escrows) (http 404 escrow_not_found)
    raise_if (not (e.requester_id == current)) (http 403 not_permitted)
    raise_if (not (is_held e.status)) (http 400 wrong_status)
    requester_bal ← or_raise (find e.requester_id db.balances) (http 404 balance_not_found)
    provider_bal ← or_raise (find e.provider_id db.balances) (http 404 balance_not_found)
    let waiting = is_some req.efficacy_check_at
    ok (
      release_share k req e db,
      record {
        escrow_id = k;
        status = if waiting then EscrowStatus.partially_released else EscrowStatus.released;
        released_amount = release_amount req e;
        fee_collected = release_fee req e;
        holdback_amount = if waiting then held_back_amount req e else 0;
        holdback_fee = if waiting then held_back_fee req e else 0;
        provider_id = e.provider_id;
      },
    )
