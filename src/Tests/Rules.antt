-- ===== src/Tests/Rules.antt =====
-- Runs of the fee, the spending guard, the KYA gate and the cascade of refunds.
use a2a_settlement.Base.{
  ℕ, ◌+◌, ◌-◌, ◌*◌, ◌≤◌, ◌<◌, ◌≡◌, ◌⊎◌, ◌↔◌, refl, true, arith, min, none, some, List, [], ◌∷◌,
  contains,
}
use a2a_settlement.Int.{pos, ◌+ℤ◌, ◌≈◌}
use a2a_settlement.Table.{find, select}
use a2a_settlement.Tests.Data.{ctx, settings, trader, books, diamond, upstream_escrow}
use a2a_settlement.Exchange.Errors.{ok, Returns}
use a2a_settlement.Exchange.Config.{hours}
use a2a_settlement.Exchange.Ledger.{gap}
use a2a_settlement.Exchange.Fees.{fee_scale, fee_amount}
use a2a_settlement.Exchange.Fees.Rounding.{fee_amount_least}
use a2a_settlement.Exchange.Guard.{check}
use a2a_settlement.Exchange.Guard.Limits.{IsAwake, HasRoom, check_within_limits}
use a2a_settlement.Exchange.Kya.{check_kya_gate}
use a2a_settlement.Exchange.Kya.Gate.{BothAt, check_kya_gate_allowed}
use a2a_settlement.Exchange.Settlement.Refund.{auto_refund_dependents, dependents_of}
use a2a_settlement.Exchange.Settlement.Refund.Cascade.{auto_refund_dependents-Returns}
use a2a_settlement.Exchange.Settlement.Refund.Diamond.{
  refunded_once, refunded_twice, diamond_overpays,
}
use a2a_settlement.Exchange.Ledger.Gap.{only}
use a2a_settlement.Exchange.Models.{Escrow, TxType, Transaction, Db}

-- Account 1 has held an escrow before.
abbrev earlier_hold : List Transaction
earlier_hold =
    record {
      escrow_id = some 10;
      from_account = some 1;
      to_account = none;
      amount = 90;
      tx_type = TxType.escrow_hold;
      self_dealing_class = none;
      fee_class = none;
      created_at = ctx.now;
    }
    ∷ []

abbrev spending : Db ℕ
spending = record books { transactions = earlier_hold }

fee_amount_least_example :
    (60 * 25 ≤ fee_scale settings * fee_amount settings 60)
    × (1 ≤ fee_amount settings 60)
    × ((fee_amount settings 60 ≡ 1)
        ⊎ (fee_scale settings * fee_amount settings 60 < 60 * 25 + fee_scale settings))
unfolding fee_scale
fee_amount_least_example = fee_amount_least settings 60 (omega arith)

check_within_limits_example :
    ((db' : Db ℕ) × (check settings ctx.now 1 103 spending ≡ ok db'))
    ↔ IsAwake ctx.now none
      × HasRoom 1 (ctx.now - hours 24) earlier_hold 103 400
      × HasRoom 1 (ctx.now - hours 1) earlier_hold 103 500
unfolding find
check_within_limits_example =
    check_within_limits settings ctx.now 1 103 400 spending trader refl refl (omega arith)
      (omega arith)

check_kya_gate_allowed_example :
    ((check_kya_gate settings books 1 2 500).allowed ≡ true
      ↔ ((500 ≤ settings.kya_escrow_tier1_max) ⊎ BothAt 1 trader trader)
        × ((500 ≤ settings.kya_escrow_tier2_max) ⊎ BothAt 2 trader trader))
    × ((check_kya_gate settings books 1 2 500).hitl_required ≡ true
        ↔ (settings.kya_hitl_threshold ≤ 500) × (settings.kya_escrow_tier2_max < 500))
unfolding find
check_kya_gate_allowed_example =
    check_kya_gate_allowed settings books 1 2 500 trader trader refl refl refl

-- The escrows of the diamond in the order of their creation.
abbrev rank : ℕ → ℕ
rank k = min (k - 20) 2

later_depends : (k j : ℕ) → contains j (dependents_of k diamond.escrows) ≡ true → rank k < rank j
unfolding dependents_of select
later_depends k j h = ground (arith, h)

auto_refund_dependents-Returns_example :
    Returns (auto_refund_dependents ctx.now diamond.escrows 3 20 diamond)
auto_refund_dependents-Returns_example =
    auto_refund_dependents-Returns ctx.now diamond.escrows rank 2 3 20 diamond later_depends
      (λ k. omega arith) (omega arith)

of_20 : dependents_of 20 diamond.escrows ≡ 21 ∷ 22 ∷ []
unfolding dependents_of select
of_20 = refl

of_21 : dependents_of 21 diamond.escrows ≡ 22 ∷ []
unfolding dependents_of select
of_21 = refl

of_22 : dependents_of 22 diamond.escrows ≡ []
unfolding dependents_of select
of_22 = refl

abbrev second : Escrow
second = upstream_escrow (20 ∷ [])

abbrev third : Escrow
third = upstream_escrow (20 ∷ 21 ∷ [])

diamond_overpays_example :
    (auto_refund_dependents ctx.now diamond.escrows 3 20 diamond
      ≡ ok (refunded_twice ctx.now 21 22 second third diamond))
    × (gap 1 (refunded_twice ctx.now 21 22 second third diamond) +ℤ pos (only 1 1 103)
        ≈ gap 1 (refunded_once ctx.now 21 22 second third diamond))
unfolding find
diamond_overpays_example =
    diamond_overpays ctx.now diamond.escrows 20 21 22 0 second third diamond of_20 of_21 of_22
      (λ e. ground (arith, e)) refl refl refl refl 1
