-- ===== src/Tests/Books.antt =====
-- Runs of the handlers that keep the books.
use a2a_settlement.Base.{ℕ, ◌+◌, ◌≡◌, refl, true, some, none, [], ◌∷◌, arith}
use a2a_settlement.Int.{pos, ◌+ℤ◌, ◌-ℤ◌, ◌≈◌}
use a2a_settlement.Table.{find, modify, select}
use a2a_settlement.Table.Keys.{UniqueKeys}
use a2a_settlement.Tests.Data.{ctx, balance, books, diamond, is_ok, disputed_escrow}
use a2a_settlement.Exchange.Errors.{Result, ◌>>=◌, ◌>>◌, raise_if, or_raise}
use a2a_settlement.Exchange.Models.{Db, AccountStatus}
use a2a_settlement.Exchange.Ledger.{
  net, collected, modify_balance, modify_escrow, add_transaction, modify_account,
}
use a2a_settlement.Exchange.Fees.{fee_amount}
use a2a_settlement.Exchange.Guard.{check, check_account, check_daily, check_velocity, spent_since}
use a2a_settlement.Exchange.Kya.{check_kya_gate}
use a2a_settlement.Exchange.Observer.{
  expire_stale_held, stale_held, for_each, refund_escrow, pay_provider,
}
use a2a_settlement.Exchange.Observer.Conserves.{pay_provider_loses_fee}
use a2a_settlement.Exchange.Settlement.Instant.{instant_settle}
use a2a_settlement.Exchange.Settlement.Create.{
  EscrowRequest, EscrowResponse, create_escrow, has_unknown_dependency, some_row, is_duplicate,
  same_task, count_owned,
}
use a2a_settlement.Exchange.Settlement.Partial.{PartialReleaseRequest}
use a2a_settlement.Exchange.Settlement.Refund.{
  refund, auto_refund_dependents, refund_each, dependents_of, refund_dependent, RefundResponse,
  refund_funds,
}
use a2a_settlement.Exchange.Settlement.Dispute.{dispute, DisputeResponse}
use a2a_settlement.Exchange.Settlement.Resolve.{
  Resolution, StakeRuling, ResolveRequest, resolve, ResolveResponse,
}

pub unique : UniqueKeys books.escrows
unfolding find
unique = (refl, (refl, (refl, tt)))

pub settled : is_ok (instant_settle ctx 1 2 40 books) ≡ true
unfolding instant_settle ◌>>=◌ ◌>>◌ raise_if or_raise find check_kya_gate fee_amount check
    check_account check_daily check_velocity spent_since
settled = refl

abbrev pub request : EscrowRequest
request = record {
  provider_id = 2;
  amount = pos 60;
  task_id = some "translation";
  ttl_minutes = none;
  depends_on = some (10 ∷ []);
  required_attestation_level = none;
}

abbrev pub creation : Result (Db ℕ × EscrowResponse)
creation = create_escrow ctx 1 15 request books

pub created : is_ok creation ≡ true
unfolding create_escrow ◌>>=◌ ◌>>◌ raise_if or_raise find modify select expire_stale_held stale_held
    for_each refund_escrow modify_balance modify_escrow add_transaction check_kya_gate fee_amount
    check check_account check_daily check_velocity spent_since has_unknown_dependency count_owned
    some_row is_duplicate same_task ◌+ℤ◌
created = refl

abbrev pub sixty : PartialReleaseRequest
sixty = record {
  release_percent = 60;
  score = some 80;
  efficacy_check_at = some 5_000_000_000_000;
  efficacy_criteria = none;
}

abbrev refunding : Result (Db ℕ × RefundResponse)
refunding = refund ctx 3 1 20 diamond

refunded_all : is_ok refunding ≡ true
unfolding refund ◌>>=◌ ◌>>◌ raise_if or_raise find modify select expire_stale_held stale_held
    for_each refund_escrow modify_balance modify_escrow add_transaction modify_account refund_funds
    auto_refund_dependents refund_each dependents_of refund_dependent
refunded_all = refl

abbrev pub filing : Result (Db ℕ × DisputeResponse)
filing = dispute ctx 2 10 25 "no delivery" books

pub filed : is_ok filing ≡ true
unfolding dispute ◌>>=◌ ◌>>◌ raise_if or_raise find
filed = refl

abbrev pub ruling : ResolveRequest
ruling = record {
  resolution = Resolution.to_release;
  strategy = none;
  provenance_result = none;
  mediator_context = none;
  stake_ruling = some StakeRuling.forfeit;
}

abbrev resolution : Result (Db ℕ × ResolveResponse)
resolution = resolve ctx AccountStatus.operator 11 ruling books

pay_provider_loses_fee_example :
    (find 1 (pay_provider ctx.now 11 disputed_escrow books).balances
      ≡ some (record (balance 1000 329) {
        held_in_escrow = (balance 1000 329).held_in_escrow -ℤ pos 103;
        total_spent = (balance 1000 329).total_spent + 103;
      }))
    × (find 2 (pay_provider ctx.now 11 disputed_escrow books).balances
        ≡ some (record (balance 500 0) {
          available = (balance 500 0).available +ℤ pos 100;
          total_earned = (balance 500 0).total_earned + 100;
        }))
    × (collected (pay_provider ctx.now 11 disputed_escrow books).transactions
        ≡ collected books.transactions)
    × (net (pay_provider ctx.now 11 disputed_escrow books) +ℤ pos 3 ≈ net books)
unfolding find
pay_provider_loses_fee_example =
    pay_provider_loses_fee ctx.now 11 disputed_escrow books (balance 1000 329) (balance 500 0) refl
      refl (λ q. let impossible : ⊥ = omega (arith, q) in impossible)
