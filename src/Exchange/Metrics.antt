-- ===== src/Exchange/Metrics.antt =====
-- exchange/reputation_metrics.py and exchange/routes/reputation.py, with `get_vi_attestation` of
-- exchange/routes/settlement.py. `ratio m n` is the float `m / n`, `round4` is `round(x, 4)`; the
-- digest of an attestation and the URLs are left out.
pub mod Bounds
use a2a_settlement.Base.{
  ℕ, ◌+◌, ◌*◌, Bool, true, false, Option, none, some, leb, ◌==◌, ◌&&◌, ◌||◌, if◌then◌else◌,
}
use a2a_settlement.Table.{Table, find, count}
use a2a_settlement.Exchange.Errors.{Result, ok, http, or_raise, ◌>>=◌, account_not_found}
use a2a_settlement.Exchange.Models.{Account, EscrowStatus, Escrow, Db}
use a2a_settlement.Exchange.Config.{Floats, hours}
use Prim.Native.String.{String}

-- The window is from `now` less the days on: `window_start` is where it begins, 0 at the earliest.
pub record ReputationMetrics (R : Type 0) : Type 0 where
  pub score : R
  pub task_count : ℕ
  pub dispute_rate : R
  pub settlement_volume : ℕ
  pub window_days : ℕ
  pub issued_at : ℕ

pub record ReputationResponse (R : Type 0) : Type 0 where
  pub agent_id : ℕ
  pub bot_name : String
  pub metrics : ReputationMetrics R
  pub lambda_ : R

-- `_DISPUTE_STATUSES`
abbrev pub is_dispute : EscrowStatus → Bool
is_dispute EscrowStatus.disputed = true
is_dispute EscrowStatus.refunded = true
is_dispute _ = false

-- `_SETTLED_STATUSES`
abbrev pub is_settled : EscrowStatus → Bool
is_settled EscrowStatus.released = true
is_settled EscrowStatus.partially_released = true
is_settled _ = false

-- `_COMPLETED_STATUSES`
abbrev pub is_completed : EscrowStatus → Bool
is_completed EscrowStatus.released = true
is_completed EscrowStatus.refunded = true
is_completed EscrowStatus.disputed = true
is_completed EscrowStatus.partially_released = true
is_completed _ = false

abbrev pub one_if : Bool → ℕ → ℕ
one_if true n = n
one_if false n = 0

-- Of the provider, with a status, and created within the window.
abbrev pub in_window : (EscrowStatus → Bool) → ℕ → ℕ → ℕ → Escrow → Bool
in_window p provider now days e =
    e.provider_id == provider && (p e.status && leb now (e.created_at + hours (24 * days)))

unfoldable pub count_in_window : (EscrowStatus → Bool) → ℕ → ℕ → ℕ → Table Escrow → ℕ
count_in_window p provider now days escrows =
    count (λ e. one_if (in_window p provider now days e) 1) escrows

unfoldable pub volume_in_window : ℕ → ℕ → ℕ → Table Escrow → ℕ
volume_in_window provider now days escrows =
    count (λ e. one_if (in_window is_settled provider now days e) e.amount) escrows

abbrev pub or_days : Option ℕ → ℕ → ℕ
or_days none default = default
or_days (some n) default = n

-- `EMA_LAMBDA`
abbrev pub ema_lambda : {R : Type 0} → Floats R → R
ema_lambda F = F.literal 1 1

abbrev pub dispute_rate : {R : Type 0} → Floats R → (ℕ → ℕ → R) → ℕ → ℕ → R
dispute_rate F ratio disputes total = if total == 0 then F.literal 0 1 else ratio disputes total

module _ {R : Type 0} (F : Floats R) (ratio : ℕ → ℕ → R) (round4 : R → R) (default_days : ℕ) where
  unfoldable pub compute_reputation_metrics :
      ℕ → ℕ → Account R → Option ℕ → Table Escrow → ReputationMetrics R
  unfolding count_in_window volume_in_window
  compute_reputation_metrics now id account window_days escrows =
      let days = or_days window_days default_days in
      let total = count_in_window is_completed id now days escrows in
      let disputes = count_in_window is_dispute id now days escrows in
      record {
        score = round4 account.reputation;
        task_count = total;
        dispute_rate = round4 (dispute_rate F ratio disputes total);
        settlement_volume = volume_in_window id now days escrows;
        window_days = days;
        issued_at = now;
      }

  unfoldable pub get_reputation : ℕ → ℕ → Db R → Result (ReputationResponse R)
  unfolding compute_reputation_metrics
  get_reputation now agent_id db = do
    acct ← or_raise (find agent_id db.accounts) (http 404 account_not_found)
    ok (record {
      agent_id = agent_id;
      bot_name = acct.bot_name;
      metrics = compute_reputation_metrics now agent_id acct none db.escrows;
      lambda_ = ema_lambda F;
    })

  -- The value of the attestation, without its digest.
  unfoldable pub get_vi_attestation : ℕ → ℕ → Db R → Result (ReputationMetrics R × R)
  unfolding compute_reputation_metrics
  get_vi_attestation now account_id db = do
    acct ← or_raise (find account_id db.accounts) (http 404 account_not_found)
    ok (compute_reputation_metrics now account_id acct none db.escrows, ema_lambda F)
