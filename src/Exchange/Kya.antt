-- ===== src/Exchange/Kya.antt =====
-- The KYA gate of exchange/routes/settlement.py.
pub mod Gate
use a2a_settlement.Base.{
  ℕ, Bool, true, false, Option, none, some, ltb, leb, min, ◌&&◌, if◌then◌else◌,
}
use a2a_settlement.Table.{find}
use a2a_settlement.Exchange.Models.{Account, Db}
use a2a_settlement.Exchange.Config.{Settings}

pub record KyaGate : Type 0 where
  pub allowed : Bool
  pub required_level : ℕ
  pub requester_level : ℕ
  pub provider_level : ℕ
  pub hitl_required : Bool

module _ {R : Type 0} where
  abbrev pub verified_level : Option (Account R) → ℕ
  verified_level none = 0
  verified_level (some a) = a.kya_level_verified

  unfoldable pub required_kya_level : Settings R → ℕ → ℕ
  required_kya_level st amount =
      if ltb st.kya_escrow_tier2_max amount
      then 2
      else if ltb st.kya_escrow_tier1_max amount
      then 1
      else 0

  -- `_check_kya_gate`
  unfoldable pub check_kya_gate : Settings R → Db R → ℕ → ℕ → ℕ → KyaGate
  unfolding required_kya_level
  check_kya_gate st db requester_id provider_id amount =
      let req_level = verified_level (find requester_id db.accounts) in
      let prov_level = verified_level (find provider_id db.accounts) in
      let required = required_kya_level st amount in
      if st.kya_enabled
      then record {
        allowed = leb required (min req_level prov_level);
        required_level = required;
        requester_level = req_level;
        provider_level = prov_level;
        hitl_required = leb st.kya_hitl_threshold amount && leb 2 required;
      }
      else record {
        allowed = true;
        required_level = 0;
        requester_level = 0;
        provider_level = 0;
        hitl_required = false;
      }
