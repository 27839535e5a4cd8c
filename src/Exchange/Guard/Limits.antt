-- ===== src/Exchange/Guard/Limits.antt =====
-- About the limits and the freeze of exchange/spending_guard.py.
use a2a_settlement.Base.{
  ℕ, ◌+◌, ◌-◌, ◌≤◌, ◌<◌, ◌≡◌, ◌↔◌, ◌⊎◌, refl, ap, Bool, true, false, Option, none, some, List, [],
  ◌∷◌, ◌&&◌, leb, inl, inr, arith, &&-both, sym, ◌∙◌, le→ltb, ltb→le, Bool-cases, ==→eq, ==_refl,
}
use a2a_settlement.Table.{find}
use a2a_settlement.Table.Laws.{find-modify_self}
use a2a_settlement.Exchange.Errors.{
  ok, err, http, ◌>>◌, raise_if, account_frozen, daily_limit_exceeded,
}
use a2a_settlement.Exchange.Models.{Account, TxType, Transaction, Db}
use a2a_settlement.Exchange.Config.{Settings, minutes, hours}
use a2a_settlement.Exchange.Ledger.{modify_account}
use a2a_settlement.Exchange.Guard.{
  thaw, is_from, is_escrow_hold, spent_since, freezing, frozen_after, check_daily, check_velocity,
  check_account, check,
}
use mathlib.Core.Path.{subst}
use mathlib.Core.Option.{some-injective}

-- An escrow hold of the account, not before the instant.
abbrev pub IsHold : ℕ → ℕ → Transaction → Type 0
IsHold account since tx =
    (tx.from_account ≡ some account) × (tx.tx_type ≡ TxType.escrow_hold) × (since ≤ tx.created_at)

-- `Spent account since txs n`: the escrow holds of the account since the instant amount to `n`.
pub data Spent (account since : ℕ) : List Transaction → ℕ → Type 0 where
  no_rows : Spent account since [] 0
  counted :
      (tx : Transaction) (txs : List Transaction) (n : ℕ)
      → IsHold account since tx
      → Spent account since txs n
      → Spent account since (tx ∷ txs) (tx.amount + n)
  passed_over :
      (tx : Transaction) (txs : List Transaction) (n : ℕ)
      → ¬ (IsHold account since tx)
      → Spent account since txs n
      → Spent account since (tx ∷ txs) n

-- A further hold of `n` stays within a limit.
abbrev pub HasRoom : ℕ → ℕ → List Transaction → ℕ → ℕ → Type 0
HasRoom account since txs n limit =
    (spent : ℕ) × Spent account since txs spent × (spent + n ≤ limit)

-- The account is not frozen, or no longer.
abbrev pub IsAwake : ℕ → Option ℕ → Type 0
IsAwake now frozen_until =
    (frozen_until ≡ none) ⊎ ((until : ℕ) × (frozen_until ≡ some until) × (until ≤ now))

is_from-eq : (a : ℕ) (o : Option ℕ) → is_from a o ≡ true → o ≡ some a
unfolding is_from
is_from-eq a none h = let impossible : ⊥ = cc in absurd impossible
is_from-eq a (some b) h = ap some (==→eq b a h)

is_from_self : (a : ℕ) → is_from a (some a) ≡ true
unfolding is_from
is_from_self a = ==_refl a

is_escrow_hold-eq : (t : TxType) → is_escrow_hold t ≡ true → t ≡ TxType.escrow_hold
unfolding is_escrow_hold
is_escrow_hold-eq TxType.escrow_hold h = refl
is_escrow_hold-eq TxType.mint h = cc
is_escrow_hold-eq TxType.deposit_tx h = cc
is_escrow_hold-eq TxType.instant_settlement h = cc
is_escrow_hold-eq TxType.fee h = cc
is_escrow_hold-eq TxType.escrow_release h = cc
is_escrow_hold-eq TxType.escrow_refund h = cc
is_escrow_hold-eq TxType.escrow_partial_release h = cc
is_escrow_hold-eq TxType.escrow_holdback_release h = cc
is_escrow_hold-eq TxType.escrow_holdback_refund h = cc
is_escrow_hold-eq TxType.dispute_stake_hold h = cc
is_escrow_hold-eq TxType.dispute_stake_return h = cc
is_escrow_hold-eq TxType.dispute_stake_forfeit h = cc
is_escrow_hold-eq TxType.attestation_renewal_fee h = cc

is_escrow_hold_self : is_escrow_hold TxType.escrow_hold ≡ true
unfolding is_escrow_hold
is_escrow_hold_self = refl

&&-intro : {a b : Bool} → a ≡ true → b ≡ true → (a && b) ≡ true
&&-intro h k = rw (h, k) refl

module _ (account since : ℕ) where
  abbrev counts : Transaction → Bool
  counts tx =
      is_from account tx.from_account && (is_escrow_hold tx.tx_type && leb since tx.created_at)

  counts-holds : (tx : Transaction) → counts tx ≡ true → IsHold account since tx
  counts-holds tx h =
      let own = &&-both (is_from account tx.from_account) _ h in
      let kind = &&-both (is_escrow_hold tx.tx_type) _ own.1 in
      (
        is_from-eq account tx.from_account own.0,
        is_escrow_hold-eq tx.tx_type kind.0,
        ground (arith, kind.1),
      )

  holds-counts : (tx : Transaction) → IsHold account since tx → counts tx ≡ true
  holds-counts tx (own, kind, late) =
      let recent : leb since tx.created_at ≡ true = ground (arith, late) in
      &&-intro (ap (is_from account) own ∙ is_from_self account)
        (&&-intro (ap is_escrow_hold kind ∙ is_escrow_hold_self) recent)

  spent_since-Spent :
      (txs : List Transaction) → Spent account since txs (spent_since txs account since)
  unfolding spent_since
  spent_since-Spent [] = Spent.no_rows
  spent_since-Spent (tx ∷ txs) = elim (Bool-cases (counts tx)) [
    | inl hit ↦ rw hit (Spent.counted tx txs _ (counts-holds tx hit) (spent_since-Spent txs))
    | inr miss ↦
        let other : ¬ (IsHold account since tx) = λ held.
          let clash : true ≡ false = sym (holds-counts tx held) ∙ miss in
          let impossible : ⊥ = cc in impossible in
        rw miss (
          subst (Spent account since (tx ∷ txs)) (omega arith)
            (Spent.passed_over tx txs _ other (spent_since-Spent txs)))
  ]

  Spent-spent_since :
      {txs : List Transaction} {n : ℕ}
      → Spent account since txs n
      → n ≡ spent_since txs account since
  unfolding spent_since
  Spent-spent_since Spent.no_rows = refl
  Spent-spent_since (Spent.counted tx txs n held rest) =
      rw (holds-counts tx held) (ap (λ k. tx.amount + k) (Spent-spent_since rest))
  Spent-spent_since (Spent.passed_over tx txs n other rest) = elim (Bool-cases (counts tx)) [
    | inl hit ↦ absurd (other (counts-holds tx hit))
    | inr miss ↦ rw miss (omega (arith, Spent-spent_since rest))
  ]

frozen_after-IsAwake : (now : ℕ) (o : Option ℕ) → frozen_after now o ≡ false → IsAwake now o
frozen_after-IsAwake now none h = inl refl
frozen_after-IsAwake now (some until) h = inr (until, refl, ltb→le now until h)

IsAwake-frozen_after : (now : ℕ) (o : Option ℕ) → IsAwake now o → frozen_after now o ≡ false
IsAwake-frozen_after now none h = refl
IsAwake-frozen_after now (some until) (inl q) = let impossible : ⊥ = cc in absurd impossible
IsAwake-frozen_after now (some until) (inr (u, q, over)) =
    le→ltb now until (rw (some-injective until u q) over)

module _ {R : Type 0} (st : Settings R) (now : ℕ) where
  let_through :
      (account n limit : ℕ) (db db' : Db R) (acct : Account R)
      → find account db.accounts ≡ some acct
      → acct.daily_spend_limit ≡ some limit
      → 0 < limit
      → 0 < st.hourly_velocity_limit
      → check st now account n db ≡ ok db'
      → (frozen_after now acct.frozen_until ≡ false)
        × (spent_since db.transactions account (now - hours st.spending_window_hours) + n ≤ limit)
        × (spent_since db.transactions account (now - hours 1) + n ≤ st.hourly_velocity_limit)
  unfolding check check_account check_daily check_velocity ◌>>◌ raise_if
  let_through account n limit db db' acct at lim pos_limit pos_velocity q = ground (arith, at, lim)

  lets_through :
      (account n limit : ℕ) (db : Db R) (acct : Account R)
      → find account db.accounts ≡ some acct
      → acct.daily_spend_limit ≡ some limit
      → frozen_after now acct.frozen_until ≡ false
      → spent_since db.transactions account (now - hours st.spending_window_hours) + n ≤ limit
      → spent_since db.transactions account (now - hours 1) + n ≤ st.hourly_velocity_limit
      → check st now account n db ≡ ok (thaw st now acct.frozen_until account db)
  unfolding check check_account check_daily check_velocity ◌>>◌ raise_if
  lets_through account n limit db acct at lim awake day hour = ground (arith, at, lim, awake)

  -- For an account with a positive daily limit, and with a positive hourly one, the guard lets a
  -- hold through exactly if the account is not frozen, or no longer, and the hold and the
  -- account's escrow holds since the start of the rolling window amount to the daily limit at
  -- most, and with those of the last hour to the hourly limit at most.
  pub check_within_limits :
      (account n limit : ℕ) (db : Db R) (acct : Account R)
      → find account db.accounts ≡ some acct
      → acct.daily_spend_limit ≡ some limit
      → 0 < limit
      → 0 < st.hourly_velocity_limit
      → ((db' : Db R) × (check st now account n db ≡ ok db'))
        ↔ IsAwake now acct.frozen_until
          × HasRoom account (now - hours st.spending_window_hours) db.transactions n limit
          × HasRoom account (now - hours 1) db.transactions n st.hourly_velocity_limit
  check_within_limits account n limit db acct at lim pos_limit pos_velocity = (
    λ (db', run).
        let (awake, day, hour) =
          let_through account n limit db db' acct at lim pos_limit pos_velocity run in
        (
          frozen_after-IsAwake now acct.frozen_until awake,
          (
            _,
            spent_since-Spent account (now - hours st.spending_window_hours) db.transactions,
            day,
          ),
          (_, spent_since-Spent account (now - hours 1) db.transactions, hour),
        ),
    λ (awake, (d, spent_day, day), (h, spent_hour, hour)).
        let same_day = Spent-spent_since account (now - hours st.spending_window_hours) spent_day in
        let same_hour = Spent-spent_since account (now - hours 1) spent_hour in
        (
          _,
          lets_through account n limit db acct at lim
              (IsAwake-frozen_after now acct.frozen_until awake) (rw (← same_day) day)
              (rw (← same_hour) hour),
        ),
  )

  -- A hold of an account that is not frozen over its positive daily limit is refused, and the
  -- refusal freezes the account for the configured time.
  pub check_daily_breach :
      (account n limit : ℕ) (db : Db R) (acct : Account R)
      → find account db.accounts ≡ some acct
      → frozen_after now acct.frozen_until ≡ false
      → acct.daily_spend_limit ≡ some limit
      → 0 < limit
      → limit < spent_since db.transactions account (now - hours st.spending_window_hours) + n
      → check st now account n db
        ≡ err (
            freezing account
              (now + minutes st.spending_freeze_minutes)
              (http 400 daily_limit_exceeded))
  unfolding check check_account check_daily ◌>>◌ raise_if
  check_daily_breach account n limit db acct at awake lim positive breach = ground (arith, at, lim)

  -- Once an account is frozen until some instant, the guard refuses every hold of it before that
  -- instant.
  pub check_frozen :
      (account until n : ℕ) (db : Db R) (acct : Account R)
      → find account db.accounts ≡ some acct
      → now < until
      → check st now account n
          (modify_account account (λ a. record a { frozen_until = some until }) db)
        ≡ err (http 423 account_frozen)
  unfolding check check_account modify_account ◌>>◌ raise_if
  check_frozen account until n db acct at early = ground (
    arith,
    find-modify_self account (λ a. record a { frozen_until = some until }) db.accounts acct at,
  )
