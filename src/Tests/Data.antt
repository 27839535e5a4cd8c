-- ===== src/Tests/Data.antt =====
-- A small exchange: two traders, an operator, and escrows in several states.
use a2a_settlement.Base.{
  ℕ, ◌+◌, ◌-◌, ◌*◌, ◌/◌, ◌^◌, ◌≡◌, refl, Bool, true, false, none, some, List, [], ◌∷◌, ltb,
}
use a2a_settlement.Int.{pos}
use a2a_settlement.Exchange.Errors.{Result, ok, err}
use a2a_settlement.Exchange.Models.{
  Account, AccountStatus, AccountType, Balance, Escrow, EscrowStatus, SelfDealingClass, StakeStatus,
  Db,
}
use a2a_settlement.Exchange.Config.{Floats, Settings, Context}

-- Thousandths stand for floats.
abbrev pub thousandths : Floats ℕ
thousandths = record {
  literal = λ m k. m * 1000 / 10 ^ k;
  percent = λ p. p * 10;
  add = λ x y. x + y;
  sub = λ x y. x - y;
  mul = λ x y. x * y / 1000;
  lt = ltb;
}

abbrev pub settings : Settings ℕ
settings = record {
  fee_coefficient = 25;
  fee_exponent = 2;
  min_escrow = 1;
  max_escrow = 10_000;
  min_fee = 1;
  default_ttl_minutes = 30;
  dispute_ttl_minutes = 10_080;
  expiry_warning_minutes = 5;
  spending_window_hours = 24;
  hourly_velocity_limit = 500;
  spending_freeze_minutes = 30;
  kya_enabled = true;
  kya_escrow_tier1_max = 100;
  kya_escrow_tier2_max = 1000;
  kya_hitl_threshold = 5000;
  evidence_window_hours = 48;
  dispute_stake_min = 10;
  instant_settle_min_reputation = 300;
  instant_settle_max_amount = 1000;
}

abbrev pub ctx : Context ℕ
ctx = record {
  floats = thousandths;
  settings = settings;
  now = 1_000_000_000_000;
  classify = λ a b. SelfDealingClass.arms_length;
}

abbrev pub trader : Account ℕ
trader = record {
  bot_name = "trader";
  developer_id = "dev-1";
  developer_name = "Dev";
  contact_email = "dev@example.org";
  api_key_hash = "";
  previous_api_key_hash = none;
  key_rotated_at = none;
  description = none;
  skills = [];
  status = AccountStatus.active;
  reputation = 500;
  daily_spend_limit = some 400;
  frozen_until = none;
  created_at = 0;
  unique_counterparties_90d = 0;
  counterparty_hhi = none;
  diversity_score = none;
  is_oracle = false;
  kya_level_verified = 1;
  did = none;
  did_key = none;
  agent_card_json = none;
  card_verified_at = none;
  attestation_expires_at = none;
  account_type = AccountType.agent;
}

abbrev pub balance : ℕ → ℕ → Balance
balance available held = record {
  available = pos available;
  held_in_escrow = pos held;
  total_earned = 0;
  total_spent = 0;
}

-- A held escrow from account 1 to account 2.
abbrev pub escrow : Escrow
escrow = record {
  requester_id = 1;
  provider_id = 2;
  amount = 100;
  fee_amount = 3;
  task_id = some "summary";
  depends_on = none;
  status = EscrowStatus.held;
  dispute_reason = none;
  resolution_strategy = none;
  expires_at = 2_000_000_000_000;
  dispute_expires_at = none;
  warning_sent_at = none;
  resolved_at = none;
  self_dealing_class = some SelfDealingClass.arms_length;
  required_attestation_level = none;
  delivered_content = none;
  provenance_result = none;
  delivered_at = none;
  released_amount = none;
  released_fee = none;
  holdback_amount = none;
  holdback_fee = none;
  score = none;
  efficacy_check_at = none;
  efficacy_criteria = none;
  dispute_filed_by = none;
  dispute_stake_amount = none;
  dispute_stake_status = none;
  evidence_window_closes_at = none;
  mediator_context = none;
  kya_level_at_creation = some 0;
  hitl_required = false;
  created_at = 0;
}

-- The escrow that account 1 disputes with a stake of 20, its evidence window closed.
abbrev pub disputed_escrow : Escrow
disputed_escrow = record escrow {
  status = EscrowStatus.evidence_pending;
  dispute_filed_by = some 1;
  dispute_stake_amount = some 20;
  dispute_stake_status = some StakeStatus.stake_held;
  evidence_window_closes_at = some 900_000_000_000;
  dispute_expires_at = some 3_000_000_000_000;
}

abbrev pub upstream_escrow : List ℕ → Escrow
upstream_escrow ks = record escrow { task_id = none; depends_on = some ks }

-- Escrow 10 is held, 11 disputed, 12 held past its expiry.
abbrev pub books : Db ℕ
books = record {
  accounts =
      (1, trader) ∷ (2, trader) ∷ (3, record trader { status = AccountStatus.operator }) ∷ [];
  balances = (1, balance 1000 329) ∷ (2, balance 500 0) ∷ [];
  escrows = (10, escrow) ∷ (11, disputed_escrow) ∷ (12, record escrow { expires_at = 5 }) ∷ [];
  transactions = [];
  evidence = [];
}

-- Escrow 21 depends on 20, and 22 on both.
abbrev pub diamond : Db ℕ
diamond = record books {
  escrows =
      (20, upstream_escrow [])
      ∷ (21, upstream_escrow (20 ∷ []))
      ∷ (22, upstream_escrow (20 ∷ 21 ∷ []))
      ∷ [];
}

abbrev pub is_ok : {A : Type 0} → Result A → Bool
is_ok (ok a) = true
is_ok (err e) = false

-- The value of a run that succeeds.
abbrev pub value_of : {A : Type 0} (m : Result A) → is_ok m ≡ true → A
value_of (ok a) h = a
value_of (err e) h = let impossible : ⊥ = cc in absurd impossible

pub ok-value_of : {A : Type 0} (m : Result A) (h : is_ok m ≡ true) → m ≡ ok (value_of m h)
ok-value_of (ok a) h = refl
ok-value_of (err e) h = let impossible : ⊥ = cc in absurd impossible
