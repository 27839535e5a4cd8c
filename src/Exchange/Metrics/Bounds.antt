-- ===== src/Exchange/Metrics/Bounds.antt =====
-- About `compute_reputation_metrics` of exchange/reputation_metrics.py.
use a2a_settlement.Base.{
  ℕ, ◌+◌, ◌≤◌, ◌≡◌, refl, Bool, true, false, Option, [], ◌∷◌, arith, inl, inr, Bool-cases, ◌==◌,
  ◌&&◌,
}
use a2a_settlement.Table.{Table, count}
use a2a_settlement.Exchange.Models.{Account, Escrow, EscrowStatus}
use a2a_settlement.Exchange.Config.{Floats}
use a2a_settlement.Exchange.Metrics.{
  is_dispute, is_settled, is_completed, one_if, count_in_window, or_days, dispute_rate,
  compute_reputation_metrics,
}

-- A completed escrow is in dispute or settled, and not both.
split_status :
    (s : EscrowStatus) (own recent : Bool)
    → one_if (own && (is_completed s && recent)) 1
      ≡ one_if (own && (is_dispute s && recent)) 1 + one_if (own && (is_settled s && recent)) 1
split_status s false recent = refl
split_status EscrowStatus.held true recent = refl
split_status EscrowStatus.partially_released true false = refl
split_status EscrowStatus.partially_released true true = refl
split_status EscrowStatus.released true false = refl
split_status EscrowStatus.released true true = refl
split_status EscrowStatus.refunded true false = refl
split_status EscrowStatus.refunded true true = refl
split_status EscrowStatus.evidence_pending true recent = refl
split_status EscrowStatus.disputed true false = refl
split_status EscrowStatus.disputed true true = refl
split_status EscrowStatus.expired true recent = refl

count-split :
    (id now days : ℕ) (t : Table Escrow)
    → count_in_window is_completed id now days t
      ≡ count_in_window is_dispute id now days t + count_in_window is_settled id now days t
unfolding count_in_window count
count-split id now days [] = refl
count-split id now days ((k, e) ∷ t) =
    omega (arith, split_status e.status (e.provider_id == id) _, count-split id now days t)

module _ {R : Type 0} (F : Floats R) where
  -- Not below 0 and not above 1.
  abbrev pub InUnit : R → Type 0
  InUnit x = (F.lt x (F.literal 0 1) ≡ false) × (F.lt (F.literal 1 0) x ≡ false)

  -- What is used of floats: 0 is in the unit interval, a ratio of naturals that is not improper is,
  -- and rounding to four places does not leave it.
  pub record UnitLaws (ratio : ℕ → ℕ → R) (round4 : R → R) : Type 0 where
    pub zero_in : InUnit (F.literal 0 1)
    pub ratio_in : (m n : ℕ) → m ≤ n → (n == 0) ≡ false → InUnit (ratio m n)
    pub round4_in : (x : R) → InUnit x → InUnit (round4 x)

  module _ (ratio : ℕ → ℕ → R) (round4 : R → R) (default_days : ℕ) where
    dispute_rate-InUnit :
        (laws : UnitLaws ratio round4) (m n : ℕ) → m ≤ n → InUnit (dispute_rate F ratio m n)
    dispute_rate-InUnit laws m n h = elim (Bool-cases (n == 0)) [
      | inl none_done ↦ rw none_done laws.zero_in
      | inr some_done ↦ rw some_done (laws.ratio_in m n h some_done)
    ]

    -- The tasks that are counted are the disputes and the settled ones, none twice, and the
    -- dispute rate lies between 0 and 1, if 0, ratios that are not improper and roundings of
    -- such numbers do.
    pub compute_reputation_metrics_bounds :
        (now id : ℕ) (a : Account R) (window : Option ℕ) (t : Table Escrow)
        → UnitLaws ratio round4
        → let m = compute_reputation_metrics F ratio round4 default_days now id a window t in
          let days = or_days window default_days in
          (m.task_count
            ≡ count_in_window is_dispute id now days t + count_in_window is_settled id now days t)
          × InUnit m.dispute_rate
    unfolding compute_reputation_metrics
    compute_reputation_metrics_bounds now id a window t laws =
        let days = or_days window default_days in
        let split = count-split id now days t in
        let within =
          dispute_rate-InUnit laws (count_in_window is_dispute id now days t)
            (count_in_window is_completed id now days t) (omega arith) in
        (split, laws.round4_in _ within)
