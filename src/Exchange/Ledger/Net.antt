-- ===== src/Exchange/Ledger/Net.antt =====
-- What each ledger primitive does to the net position of the books.
use a2a_settlement.Base.{ℕ, ◌≡◌, refl, ◌∙◌, true, is_some, inl, inr, Option-cases}
use a2a_settlement.Int.{pos, ◌+ℤ◌, ◌≈◌, int_laws, parts_of_eq}
use a2a_settlement.Table.{find}
use a2a_settlement.Table.Laws.{total-modify, is_some-find-modify, modify_missing}
use a2a_settlement.Exchange.Models.{Account, Balance, Escrow, Transaction, Db}
use a2a_settlement.Exchange.Ledger.Defs.{
  hold, unhold, spend_held, earn, worth, fee_of, issue_of, collected, issued, modify_balance,
  modify_escrow, modify_account, add_escrow, add_transaction, net,
}

module _ {R : Type 0} where
  -- A balance update that gains `m` and loses `n` on every balance does so on the net position.
  pub net-modify_balance :
      (k m n : ℕ) (f : Balance → Balance) (db : Db R)
      → ((b : Balance) → worth (f b) +ℤ pos n ≈ worth b +ℤ pos m)
      → is_some (find k db.balances) ≡ true
      → net (modify_balance k f db) +ℤ pos n ≈ net db +ℤ pos m
  unfolding net modify_balance
  net-modify_balance k m n f db shift known = elim (Option-cases (find k db.balances)) [
    | inl e ↦ let impossible : ⊥ = cc in absurd impossible
    | inr (b, e) ↦ omega (int_laws, parts_of_eq (total-modify worth k f db.balances b e), shift b)
  ]

  -- An update that keeps every balance's worth keeps the net position, also of a missing row.
  pub net-modify_balance_same :
      (k : ℕ) (f : Balance → Balance) (db : Db R)
      → ((b : Balance) → worth (f b) ≈ worth b)
      → net (modify_balance k f db) ≈ net db
  unfolding net modify_balance
  net-modify_balance_same k f db same = elim (Option-cases (find k db.balances)) [
    | inl e ↦ rw (modify_missing k f db.balances e) refl
    | inr (b, e) ↦ omega (int_laws, parts_of_eq (total-modify worth k f db.balances b e), same b)
  ]

  pub net-hold : (k n : ℕ) (db : Db R) → net (modify_balance k (hold n) db) ≈ net db
  net-hold k n db = net-modify_balance_same k (hold n) db (λ b. omega int_laws)

  pub net-unhold : (k n : ℕ) (db : Db R) → net (modify_balance k (unhold n) db) ≈ net db
  net-unhold k n db = net-modify_balance_same k (unhold n) db (λ b. omega int_laws)

  pub net-modify_escrow :
      (k : ℕ) (f : Escrow → Escrow) (db : Db R) → net (modify_escrow k f db) ≡ net db
  unfolding net modify_escrow
  net-modify_escrow k f db = refl

  pub net-add_escrow : (k : ℕ) (e : Escrow) (db : Db R) → net (add_escrow k e db) ≡ net db
  unfolding net add_escrow
  net-add_escrow k e db = refl

  pub net-modify_account :
      (k : ℕ) (f : Account R → Account R) (db : Db R) → net (modify_account k f db) ≡ net db
  unfolding net modify_account
  net-modify_account k f db = refl

  pub net-add_transaction :
      (tx : Transaction) (db : Db R)
      → net (add_transaction tx db) +ℤ pos (issue_of tx.tx_type tx.amount)
        ≈ net db +ℤ pos (fee_of tx.tx_type tx.amount)
  unfolding net add_transaction collected issued
  net-add_transaction tx db = omega int_laws

  -- Money that leaves one balance's escrow and reaches another's available funds: `n` is spent,
  -- `m` is earned.
  pub net-pay_out :
      (k j m n : ℕ) (db : Db R)
      → is_some (find k db.balances) ≡ true
      → is_some (find j db.balances) ≡ true
      → net (modify_balance j (earn m) (modify_balance k (spend_held n) db)) +ℤ pos n
        ≈ net db +ℤ pos m
  unfolding modify_balance
  net-pay_out k j m n db hk hj = omega (
    int_laws,
    net-modify_balance k 0 n (spend_held n) db (λ b. omega int_laws) hk,
    net-modify_balance j m 0 (earn m) (modify_balance k (spend_held n) db) (λ b. omega int_laws)
        (is_some-find-modify j k (spend_held n) db.balances ∙ hj),
  )
