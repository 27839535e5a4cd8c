-- ===== src/Exchange/Config.antt =====
-- The settings of exchange/config.py that the modelled code reads, the clock, and Python's floats.
use a2a_settlement.Base.{ℕ, ◌*◌, Bool}
use a2a_settlement.Exchange.Models.{SelfDealingClass}

-- The float operations that the code uses. `literal m k` is the float nearest to m / 10 ^ k, and
-- `percent p` is `p / 100.0`.
pub record Floats (R : Type 0) : Type 0 where
  pub literal : ℕ → ℕ → R
  pub percent : ℕ → R
  pub add : R → R → R
  pub sub : R → R → R
  pub mul : R → R → R
  pub lt : R → R → Bool

-- `fee_percent` is the decimal fee_coefficient / 10 ^ fee_exponent, as `Decimal(str(x))` reads it.
pub record Settings (R : Type 0) : Type 0 where
  pub fee_coefficient : ℕ
  pub fee_exponent : ℕ
  pub min_escrow : ℕ
  pub max_escrow : ℕ
  pub min_fee : ℕ
  pub default_ttl_minutes : ℕ
  pub dispute_ttl_minutes : ℕ
  pub expiry_warning_minutes : ℕ
  pub spending_window_hours : ℕ
  pub hourly_velocity_limit : ℕ
  pub spending_freeze_minutes : ℕ
  pub kya_enabled : Bool
  pub kya_escrow_tier1_max : ℕ
  pub kya_escrow_tier2_max : ℕ
  pub kya_hitl_threshold : ℕ
  pub evidence_window_hours : ℕ
  pub dispute_stake_min : ℕ
  pub instant_settle_min_reputation : R
  pub instant_settle_max_amount : ℕ

-- What a request is handled in: the floats, the settings, the instant that `_now()` returns, and
-- the verdict of `classify_transaction` on each pair of accounts.
pub record Context (R : Type 0) : Type 0 where
  pub floats : Floats R
  pub settings : Settings R
  pub now : ℕ
  pub classify : ℕ → ℕ → SelfDealingClass

-- `timedelta(minutes=n)` and `timedelta(hours=n)` in microseconds.
unfoldable pub minutes : ℕ → ℕ
minutes n = n * 60_000_000

unfoldable pub hours : ℕ → ℕ
unfolding minutes
hours n = minutes (n * 60)
