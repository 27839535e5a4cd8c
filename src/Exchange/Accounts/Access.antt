-- ===== src/Exchange/Accounts/Access.antt =====
-- About what `create_escrow` of exchange/routes/settlement.py asks of the two accounts, after the
-- expiry and the spending guard have written to the database.
use a2a_settlement.Base.{
  ℕ, ◌≡◌, refl, sym, ◌∙◌, ap, Bool, true, false, not, Option, none, some, ◌==◌, inl, inr,
  Bool-cases, Option-cases,
}
use a2a_settlement.Int.{pos_part}
use a2a_settlement.Table.{find}
use a2a_settlement.Table.Laws.{find-modify}
use a2a_settlement.Exchange.Errors.{
  Ensures, Ensures-ok, Ensures-raise_if, Ensures-then, Ensures-or_raise, Ensures-bind, ok,
}
use a2a_settlement.Exchange.Models.{Account, AccountStatus, Db}
use a2a_settlement.Exchange.Config.{Settings, Context}
use a2a_settlement.Exchange.Ledger.{modify_account}
use a2a_settlement.Exchange.Guard.{check_account, check, thaw}
use a2a_settlement.Exchange.Kya.{check_kya_gate, verified_level}
use a2a_settlement.Exchange.Observer.Frame.{accounts-expire_stale_held}
use a2a_settlement.Exchange.Settlement.Common.{is_active}
use a2a_settlement.Exchange.Settlement.Create.{EscrowRequest, EscrowResponse, create_escrow}
use mathlib.Core.Option
use mathlib.Core.Option.{some-injective}

abbrev status_of : {R : Type 0} → Option (Account R) → Option AccountStatus
status_of none = none
status_of (some a) = some a.status

-- The same statuses and verified levels.
pub record SameAccess {R : Type 0} (db db' : Db R) : Type 0 where
  pub statuses : (k : ℕ) → status_of (find k db'.accounts) ≡ status_of (find k db.accounts)
  pub levels : (k : ℕ) → verified_level (find k db'.accounts) ≡ verified_level (find k db.accounts)

abbrev unfreeze : {R : Type 0} → Account R → Account R
unfreeze a = record a { frozen_until = none }

module _ {R : Type 0} (st : Settings R) (now : ℕ) where
  thawed_status : (o : Option (Account R)) → status_of (Option.map unfreeze o) ≡ status_of o
  thawed_status none = refl
  thawed_status (some a) = refl

  thawed_level :
      (o : Option (Account R)) → verified_level (Option.map unfreeze o) ≡ verified_level o
  thawed_level none = refl
  thawed_level (some a) = refl

  thaw-SameAccess : (o : Option ℕ) (j : ℕ) (db : Db R) → SameAccess db (thaw st now o j db)
  unfolding modify_account
  thaw-SameAccess none j db = record { statuses = λ k. refl; levels = λ k. refl }
  thaw-SameAccess (some t) j db = record {
    statuses = λ k. rw (find-modify k j unfreeze db.accounts) (elim (Bool-cases (j == k)) [
      | inl here ↦ rw here (thawed_status (find k db.accounts))
      | inr there ↦ rw there refl
    ]);
    levels = λ k. rw (find-modify k j unfreeze db.accounts) (elim (Bool-cases (j == k)) [
      | inl here ↦ rw here (thawed_level (find k db.accounts))
      | inr there ↦ rw there refl
    ]);
  }

  check_account-SameAccess :
      (account n : ℕ) (db : Db R) (acct : Account R)
      → Ensures (check_account st now account n db acct) (SameAccess db)
  unfolding check_account
  check_account-SameAccess account n db acct = Ensures-raise_if _ _ _ λ not_frozen.
      Ensures-then _ _ λ daily.
        Ensures-then _ _ λ velocity. Ensures-ok _ _ (thaw-SameAccess acct.frozen_until account db)

  check-SameAccess :
      (account n : ℕ) (db : Db R) → Ensures (check st now account n db) (SameAccess db)
  unfolding check
  check-SameAccess account n db = elim (Option-cases (find account db.accounts)) [
    | inl q ↦
        rw (q, check)
          (Ensures-ok (SameAccess db) db (record { statuses = λ k. refl; levels = λ k. refl }))
    | inr (acct, q) ↦ rw (q, check) (check_account-SameAccess account n db acct)
  ]

not-false : (b : Bool) → not b ≡ false → b ≡ true
not-false true h = refl
not-false false h = let impossible : ⊥ = cc in absurd impossible

check_kya_gate-same :
    {R : Type 0} (st : Settings R) (db db' : Db R) (a b amount : ℕ)
    → verified_level (find a db'.accounts) ≡ verified_level (find a db.accounts)
    → verified_level (find b db'.accounts) ≡ verified_level (find b db.accounts)
    → check_kya_gate st db' a b amount ≡ check_kya_gate st db a b amount
unfolding check_kya_gate
check_kya_gate-same st db db' a b amount ha hb = rw (check_kya_gate, ha, hb) refl

active_of :
    {R : Type 0} (o : Option (Account R)) (p : Account R)
    → status_of o ≡ some p.status
    → is_active p.status ≡ true
    → (a : Account R) × (o ≡ some a) × (is_active a.status ≡ true)
active_of none p e h = let impossible : ⊥ = cc in absurd impossible
active_of (some a) p e h =
    let same : a.status ≡ p.status = some-injective _ _ e in (a, refl, rw same h)

module _ {R : Type 0} (ctx : Context R) where
  -- A creation that succeeds is with a provider who is active, and passes the gate.
  pub create_escrow_access :
      (current id : ℕ) (req : EscrowRequest) (rows : Db R)
      → (r : Db R × EscrowResponse) → create_escrow ctx current id req rows ≡ ok r
      → ((a : Account R) × (find req.provider_id rows.accounts ≡ some a)
          × (is_active a.status ≡ true))
        × ((check_kya_gate ctx.settings rows current req.provider_id (pos_part req.amount)).allowed
            ≡ true)
  unfolding create_escrow
  create_escrow_access current id req rows = Ensures-raise_if _ _ _ λ range.
      Ensures-raise_if _ _ _ λ other_party. Ensures-or_raise _ _ _ λ b hb.
        Ensures-raise_if _ _ _ λ funds. Ensures-bind _ _ λ db' checked.
          Ensures-or_raise _ _ _ λ p hp. Ensures-raise_if _ _ _ λ p_active.
            Ensures-raise_if _ _ _ λ kya. Ensures-raise_if _ _ _ λ dependencies.
              Ensures-raise_if _ _ _ λ task. Ensures-ok _ _ (
                let same = check-SameAccess ctx.settings ctx.now current _ _ db' checked in
                let kept = accounts-expire_stale_held ctx.now rows in
                let before : status_of (find req.provider_id rows.accounts) ≡ some p.status =
                  ap (λ t. status_of (find req.provider_id t)) (sym kept)
                  ∙ sym (same.statuses req.provider_id)
                  ∙ ap status_of hp in
                let level = λ (k : ℕ). same.levels k ∙ ap (λ t. verified_level (find k t)) kept in
                let gate =
                  check_kya_gate-same ctx.settings rows db' current req.provider_id
                    (pos_part req.amount) (level current) (level req.provider_id) in
                (
                  active_of _ p before (not-false _ p_active),
                  ap (λ g. g.allowed) (sym gate) ∙ not-false _ kya,
                ))
