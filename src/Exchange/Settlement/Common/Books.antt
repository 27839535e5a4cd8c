-- ===== src/Exchange/Settlement/Common/Books.antt =====
-- What booking a fee, and a payment from escrow to a provider, do to the net position and to an
-- account's gap.
use a2a_settlement.Base.{
  ℕ, ◌+◌, ◌≡◌, refl, ◌∙◌, true, Option, some, arith, ltb, inl, inr, Bool-cases, is_some,
}
use a2a_settlement.Int.{pos, ◌+ℤ◌, ◌≈◌, int_laws, parts_of_eq}
use a2a_settlement.Table.{find}
use a2a_settlement.Exchange.Models.{Account, Escrow, SelfDealingClass, Transaction, Db}
use a2a_settlement.Exchange.Ledger.{
  spend_held, unhold, earn, modify_balance, modify_escrow, modify_account, add_transaction, net,
  gap, fee_of, issue_of, owed_by,
}
use a2a_settlement.Exchange.Ledger.Net.{
  net-add_transaction, net-pay_out, net-unhold, net-modify_escrow, net-modify_account,
}
use a2a_settlement.Exchange.Ledger.Gap.{
  only, gap-add_transaction, gap-pay_out, gap-unhold, gap-modify_escrow, gap-modify_account,
}
use a2a_settlement.Exchange.Settlement.Common.{fee_movement, add_fee}

module _ {R : Type 0} where
  -- A fee adds to the fees collected, also where it is zero and is not booked.
  pub net-add_fee :
      (now : ℕ) (escrow : Option ℕ) (from n : ℕ) (class : Option SelfDealingClass) (db : Db R)
      → net (add_fee (fee_movement now escrow from n class) db) ≈ net db +ℤ pos n
  unfolding add_fee
  net-add_fee now escrow from n class db = elim (Bool-cases (ltb 0 n)) [
    | inl some_fee ↦
        rw some_fee
          (omega (int_laws, net-add_transaction (fee_movement now escrow from n class) db))
    | inr no_fee ↦ let none_due : n ≡ 0 = ground (arith, no_fee) in rw no_fee (omega int_laws)
  ]

  pub gap-add_fee :
      (a now : ℕ) (escrow : Option ℕ) (from n : ℕ) (class : Option SelfDealingClass) (db : Db R)
      → gap a (add_fee (fee_movement now escrow from n class) db) ≡ gap a db
  unfolding add_fee
  gap-add_fee a now escrow from n class db = elim (Bool-cases (ltb 0 n)) [
    | inl some_fee ↦ rw some_fee (gap-add_transaction a (fee_movement now escrow from n class) db)
    | inr no_fee ↦ rw no_fee refl
  ]

  pub balances-add_fee : (tx : Transaction) (db : Db R) → (add_fee tx db).balances ≡ db.balances
  unfolding add_fee add_transaction
  balances-add_fee tx db = elim (Bool-cases (ltb 0 tx.amount)) [
    | inl some_fee ↦ rw (some_fee, add_fee) refl
    | inr no_fee ↦ rw (no_fee, add_fee) refl
  ]

  pub escrows-add_fee : (tx : Transaction) (db : Db R) → (add_fee tx db).escrows ≡ db.escrows
  unfolding add_fee add_transaction
  escrows-add_fee tx db = elim (Bool-cases (ltb 0 tx.amount)) [
    | inl some_fee ↦ rw (some_fee, add_fee) refl
    | inr no_fee ↦ rw (no_fee, add_fee) refl
  ]

-- A transaction type that stands for neither a fee nor new money.
abbrev pub IsNeutral : Transaction → Type 0
IsNeutral tx = (fee_of tx.tx_type tx.amount ≡ 0) × (issue_of tx.tx_type tx.amount ≡ 0)

-- The changes by which `release` and `resolve` pay a provider: `m + n` leaves the requester's
-- escrow, `m` reaches the provider, `n` is booked as a fee, and the escrow `k` is rewritten.
module _ {R : Type 0} (k requester provider m n now : ℕ) (f : Escrow → Escrow) (tx : Transaction)
    (class : Option SelfDealingClass) (g : Account R → Account R) (db : Db R)
    (requester_known : is_some (find requester db.balances) ≡ true)
    (provider_known : is_some (find provider db.balances) ≡ true) where
  abbrev paid_out : Db R
  paid_out = modify_balance provider (earn m) (modify_balance requester (spend_held (m + n)) db)

  abbrev logged : Db R
  logged = add_transaction tx (modify_escrow k f paid_out)

  abbrev pub charged : Db R
  charged = add_fee (fee_movement now (some k) requester n class) logged

  abbrev pub payment : Db R
  payment = modify_account provider g charged

  pub net-charged : IsNeutral tx → net charged ≡ net db
  net-charged neutral = omega (
    int_laws,
    net-add_fee now (some k) requester n class logged,
    net-add_transaction tx (modify_escrow k f paid_out),
    parts_of_eq (net-modify_escrow k f paid_out),
    net-pay_out requester provider m (m + n) db requester_known provider_known,
    neutral.0,
    neutral.1,
  )

  pub net-payment : IsNeutral tx → net payment ≡ net db
  net-payment neutral = net-modify_account provider g charged ∙ net-charged neutral

  pub gap-charged :
      (a : ℕ) (e : Escrow)
      → find k db.escrows ≡ some e
      → gap a charged +ℤ pos (owed_by a (f e)) +ℤ pos (only a requester (m + n))
        ≈ gap a db +ℤ pos (owed_by a e)
  unfolding modify_balance
  gap-charged a e at = omega (
    int_laws,
    parts_of_eq (gap-add_fee a now (some k) requester n class logged),
    parts_of_eq (gap-add_transaction a tx (modify_escrow k f paid_out)),
    gap-modify_escrow a k f paid_out e at,
    gap-pay_out a requester provider m (m + n) db requester_known provider_known,
  )

  pub gap-payment :
      (a : ℕ) (e : Escrow)
      → find k db.escrows ≡ some e
      → owed_by a e ≡ owed_by a (f e) + only a requester (m + n)
      → gap a payment ≡ gap a db
  gap-payment a e at settles =
      omega (
        int_laws,
        parts_of_eq (gap-modify_account a provider g charged),
        gap-charged a e at,
        settles,
      )

-- A refund of `n` to the requester of escrow `k`, which is rewritten by `f`.
module _ {R : Type 0} (k requester n : ℕ) (f : Escrow → Escrow) (tx : Transaction) (db : Db R) where
  abbrev pub repaid : Db R
  repaid = add_transaction tx (modify_escrow k f (modify_balance requester (unhold n) db))

  pub net-repaid : IsNeutral tx → net repaid ≡ net db
  net-repaid neutral =
      let paid = modify_balance requester (unhold n) db in
      omega (
        int_laws,
        net-add_transaction tx (modify_escrow k f paid),
        parts_of_eq (net-modify_escrow k f paid),
        net-unhold requester n db,
        neutral.0,
        neutral.1,
      )

  pub gap-repaid :
      (a : ℕ) (e : Escrow)
      → is_some (find requester db.balances) ≡ true
      → find k db.escrows ≡ some e
      → gap a repaid +ℤ pos (owed_by a (f e)) +ℤ pos (only a requester n)
        ≈ gap a db +ℤ pos (owed_by a e)
  unfolding modify_balance
  gap-repaid a e known at =
      let paid = modify_balance requester (unhold n) db in
      omega (
        int_laws,
        parts_of_eq (gap-add_transaction a tx (modify_escrow k f paid)),
        gap-modify_escrow a k f paid e at,
        gap-unhold a requester n db known,
      )

-- The requester and the provider of escrow `k` have balances, as every registered account does.
abbrev pub PartiesKnown : {R : Type 0} → ℕ → Db R → Type 0
PartiesKnown k db =
    (e : Escrow)
    → find k db.escrows ≡ some e
    → (is_some (find e.requester_id db.balances) ≡ true)
      × (is_some (find e.provider_id db.balances) ≡ true)
