-- ===== src/Exchange/Ledger/Gap.antt =====
-- What each ledger primitive does to the gap between an account's held funds and its obligations.
use a2a_settlement.Base.{
  ℕ, ◌≡◌, refl, ◌∙◌, true, some, arith, is_some, inl, inr, ◌==◌, if◌then◌else◌, Option-cases,
  Bool-cases, ==→eq,
}
use a2a_settlement.Int.{pos, ◌+ℤ◌, ◌≈◌, int_laws}
use a2a_settlement.Table.{find}
use a2a_settlement.Table.Laws.{find-modify, is_some-find-modify, count-modify, count-append}
use a2a_settlement.Exchange.Models.{Account, Balance, Escrow, Transaction, Db}
use a2a_settlement.Exchange.Ledger.Defs.{
  hold, unhold, spend_held, earn, owed_by, modify_balance, modify_escrow, modify_account,
  add_escrow, add_transaction, gap,
}
use mathlib.Core.Option

-- A balance's own share of a change: `n` if the balance is that of account `a`.
abbrev pub only : ℕ → ℕ → ℕ → ℕ
only a k n = if k == a then n else 0

pub only_zero : (a k : ℕ) → only a k 0 ≡ 0
only_zero a k = ground arith

module _ {R : Type 0} where
  -- A balance update that adds `m` to what is held and takes `n` does so on the account's gap.
  pub gap-modify_balance :
      (a k m n : ℕ) (f : Balance → Balance) (db : Db R)
      → ((b : Balance) → (f b).held_in_escrow +ℤ pos n ≈ b.held_in_escrow +ℤ pos m)
      → is_some (find k db.balances) ≡ true
      → gap a (modify_balance k f db) +ℤ pos (only a k n) ≈ gap a db +ℤ pos (only a k m)
  unfolding gap modify_balance
  gap-modify_balance a k m n f db shift known = elim (Bool-cases (k == a)) [
    | inr other ↦ rw (find-modify a k f db.balances, other) (omega int_laws)
    | inl same ↦ elim (Option-cases (find a db.balances)) [
      | inl e ↦ let q : k ≡ a = ==→eq k a same in let impossible : ⊥ = cc in absurd impossible
      | inr (b, e) ↦
          rw (find-modify a k f db.balances, same, e, Option.map) (omega (int_laws, shift b))
    ]
  ]

  -- Escrowed funds that are paid out leave the requester's held funds.
  pub gap-pay_out :
      (a k j m n : ℕ) (db : Db R)
      → is_some (find k db.balances) ≡ true
      → is_some (find j db.balances) ≡ true
      → gap a (modify_balance j (earn m) (modify_balance k (spend_held n) db)) +ℤ pos (only a k n)
        ≈ gap a db
  unfolding modify_balance
  gap-pay_out a k j m n db hk hj = omega (
    int_laws,
    gap-modify_balance a k 0 n (spend_held n) db (λ b. omega int_laws) hk,
    gap-modify_balance a j 0 0 (earn m) (modify_balance k (spend_held n) db) (λ b. omega int_laws)
        (is_some-find-modify j k (spend_held n) db.balances ∙ hj),
    only_zero a k,
    only_zero a j,
  )

  pub gap-hold :
      (a k n : ℕ) (db : Db R)
      → is_some (find k db.balances) ≡ true
      → gap a (modify_balance k (hold n) db) ≈ gap a db +ℤ pos (only a k n)
  gap-hold a k n db h =
      omega
        (int_laws, gap-modify_balance a k n 0 (hold n) db (λ b. omega int_laws) h, only_zero a k)

  pub gap-unhold :
      (a k n : ℕ) (db : Db R)
      → is_some (find k db.balances) ≡ true
      → gap a (modify_balance k (unhold n) db) +ℤ pos (only a k n) ≈ gap a db
  gap-unhold a k n db h =
      omega
        (int_laws, gap-modify_balance a k 0 n (unhold n) db (λ b. omega int_laws) h, only_zero a k)

  pub gap-modify_escrow :
      (a k : ℕ) (f : Escrow → Escrow) (db : Db R) (e : Escrow)
      → find k db.escrows ≡ some e
      → gap a (modify_escrow k f db) +ℤ pos (owed_by a (f e)) ≈ gap a db +ℤ pos (owed_by a e)
  unfolding gap modify_escrow
  gap-modify_escrow a k f db e h = omega (int_laws, count-modify (owed_by a) k f db.escrows e h)

  pub gap-add_escrow :
      (a k : ℕ) (e : Escrow) (db : Db R) → gap a (add_escrow k e db) +ℤ pos (owed_by a e) ≈ gap a db
  unfolding gap add_escrow
  gap-add_escrow a k e db = omega (int_laws, count-append (owed_by a) k e db.escrows)

  pub gap-modify_account :
      (a k : ℕ) (f : Account R → Account R) (db : Db R) → gap a (modify_account k f db) ≡ gap a db
  unfolding gap modify_account
  gap-modify_account a k f db = refl

  pub gap-add_transaction :
      (a : ℕ) (tx : Transaction) (db : Db R) → gap a (add_transaction tx db) ≡ gap a db
  unfolding gap add_transaction
  gap-add_transaction a tx db = refl
