-- ===== src/Exchange/Fees.antt =====
-- `_fee_amount` of exchange/routes/settlement.py. `Decimal` arithmetic is exact here: the context's
-- 28 digits hold every product of a fee rate and an amount that the settings admit.
pub mod Rounding
use a2a_settlement.Base.{ℕ, ◌+◌, ◌-◌, ◌*◌, ◌/◌, ◌^◌, max}
use a2a_settlement.Exchange.Config.{Settings}

-- The quotient rounded up, `ROUND_CEILING`; the divisor is positive.
unfoldable pub ceil_div : ℕ → ℕ → ℕ
ceil_div a b = (a + (b - 1)) / b

module _ {R : Type 0} (st : Settings R) where
  -- The fee rate `fee_percent / 100` is `fee_coefficient / fee_scale`.
  unfoldable pub fee_scale : ℕ
  fee_scale = 10 ^ st.fee_exponent * 100

  unfoldable pub fee_amount : ℕ → ℕ
  unfolding ceil_div fee_scale
  fee_amount amount = max (ceil_div (amount * st.fee_coefficient) fee_scale) st.min_fee
