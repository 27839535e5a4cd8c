-- ===== src/Exchange/Fees/Rounding.antt =====
-- About `_fee_amount` of exchange/routes/settlement.py: its rounding and its minimum.
use a2a_settlement.Base.{
  ℕ, ◌+◌, ◌-◌, ◌*◌, ◌≤◌, ◌<◌, ◌≡◌, ◌⊎◌, inl, inr, refl, max, arith, leb, Bool-cases,
}
use a2a_settlement.Exchange.Config.{Settings}
use a2a_settlement.Exchange.Fees.{ceil_div, fee_scale, fee_amount}
use native.Mathlib.Nat.{div-add-mod, mod-lt, max-eq_left, max-eq_right, mul-le-mul_left}

ceil_div_bounds : (a b : ℕ) → 0 < b → (a ≤ b * ceil_div a b) × (b * ceil_div a b < a + b)
unfolding ceil_div
ceil_div_bounds a b h =
    let whole = div-add-mod (a + (b - 1)) b in
    let rest = mod-lt (a + (b - 1)) h in (omega (arith, whole, rest), omega (arith, whole, rest))

max_least :
    (a b q m : ℕ)
    → (a ≤ b * q) × (b * q < a + b)
    → (a ≤ b * max q m) × (m ≤ max q m) × ((max q m ≡ m) ⊎ (b * max q m < a + b))
max_least a b q m bounds = elim (Bool-cases (leb q m)) [
  | inl fits ↦
      let below : q ≤ m = ground (arith, fits) in
      rw (max-eq_right below) (
        let grown : b * q ≤ b * m = mul-le-mul_left b below in
        (omega (arith, grown, bounds), omega arith, inl refl))
  | inr fits ↦
      let above : m ≤ q = ground (arith, fits) in
      rw (max-eq_left above) (bounds.0, above, inr bounds.1)
]

module _ {R : Type 0} (st : Settings R) where
  -- The fee covers the rate and the minimum, and is the least integer that does: it is the
  -- minimum itself, or less than one above the exact rate.
  pub fee_amount_least :
      (amount : ℕ)
      → 0 < fee_scale st
      → (amount * st.fee_coefficient ≤ fee_scale st * fee_amount st amount)
        × (st.min_fee ≤ fee_amount st amount)
        × ((fee_amount st amount ≡ st.min_fee)
            ⊎ (fee_scale st * fee_amount st amount < amount * st.fee_coefficient + fee_scale st))
  unfolding fee_amount
  fee_amount_least amount h =
      max_least (amount * st.fee_coefficient) (fee_scale st)
        (ceil_div (amount * st.fee_coefficient) (fee_scale st)) st.min_fee
        (ceil_div_bounds (amount * st.fee_coefficient) (fee_scale st) h)
