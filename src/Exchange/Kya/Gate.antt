-- ===== src/Exchange/Kya/Gate.antt =====
-- About `_check_kya_gate` of exchange/routes/settlement.py.
use a2a_settlement.Base.{ℕ, ◌≤◌, ◌<◌, ◌≡◌, ◌↔◌, ◌⊎◌, true, some, arith}
use a2a_settlement.Table.{find}
use a2a_settlement.Exchange.Models.{Account, Db}
use a2a_settlement.Exchange.Config.{Settings}
use a2a_settlement.Exchange.Kya.{required_kya_level, check_kya_gate}

-- Both parties have at least the level.
abbrev pub BothAt : {R : Type 0} → ℕ → Account R → Account R → Type 0
BothAt level a b = (level ≤ a.kya_level_verified) × (level ≤ b.kya_level_verified)

module _ {R : Type 0} (st : Settings R) (db : Db R) where
  -- With the gate enabled, a transaction between two known accounts is allowed exactly if its
  -- amount is within the first tier or both have level 1 at least, and is within the second tier
  -- or both have level 2 at least; it is held for human review exactly if its amount is above
  -- the second tier and reaches the threshold.
  pub check_kya_gate_allowed :
      (requester provider amount : ℕ) (a b : Account R)
      → st.kya_enabled ≡ true
      → find requester db.accounts ≡ some a
      → find provider db.accounts ≡ some b
      → ((check_kya_gate st db requester provider amount).allowed ≡ true
          ↔ ((amount ≤ st.kya_escrow_tier1_max) ⊎ BothAt 1 a b)
            × ((amount ≤ st.kya_escrow_tier2_max) ⊎ BothAt 2 a b))
        × ((check_kya_gate st db requester provider amount).hitl_required ≡ true
            ↔ (st.kya_hitl_threshold ≤ amount) × (st.kya_escrow_tier2_max < amount))
  unfolding check_kya_gate required_kya_level
  check_kya_gate_allowed requester provider amount a b on ha hb = (
    (ground (arith, on, ha, hb), ground (arith, on, ha, hb)),
    (ground (arith, on, ha, hb), ground (arith, on, ha, hb)),
  )
