-- ===== src/Exchange/Guard/Keeps.antt =====
-- About the tables that the guard of exchange/spending_guard.py does not write.
use a2a_settlement.Base.{ℕ, ◌≡◌, refl, none, some, inl, inr, Option, Option-cases}
use a2a_settlement.Table.{find}
use a2a_settlement.Exchange.Errors.{Ensures, Ensures-ok, Ensures-raise_if, Ensures-then}
use a2a_settlement.Exchange.Models.{Account, Db}
use a2a_settlement.Exchange.Config.{Settings}
use a2a_settlement.Exchange.Ledger.{modify_account, net, gap}
use a2a_settlement.Exchange.Guard.{check_account, check, thaw}

-- The same database but for its accounts.
pub record SameBooks {R : Type 0} (db db' : Db R) : Type 0 where
  pub balances : db'.balances ≡ db.balances
  pub escrows : db'.escrows ≡ db.escrows
  pub transactions : db'.transactions ≡ db.transactions

module _ {R : Type 0} {db db' : Db R} (s : SameBooks db db') where
  pub SameBooks-net : net db' ≡ net db
  unfolding net
  SameBooks-net = rw (s.balances, s.transactions) refl

  pub SameBooks-gap : (a : ℕ) → gap a db' ≡ gap a db
  unfolding gap
  SameBooks-gap a = rw (s.balances, s.escrows) refl

module _ {R : Type 0} (st : Settings R) (now : ℕ) where
  thaw-SameBooks :
      (o : Option ℕ) (account : ℕ) (db : Db R) → SameBooks db (thaw st now o account db)
  unfolding modify_account
  thaw-SameBooks none account db = record { balances = refl; escrows = refl; transactions = refl }
  thaw-SameBooks (some t) account db = record {
    balances = refl;
    escrows = refl;
    transactions = refl;
  }

  check_account-SameBooks :
      (account n : ℕ) (db : Db R) (acct : Account R)
      → Ensures (check_account st now account n db acct) (SameBooks db)
  unfolding check_account
  check_account-SameBooks account n db acct = Ensures-raise_if _ _ _ λ not_frozen.
      Ensures-then _ _ λ daily.
        Ensures-then _ _ λ velocity. Ensures-ok _ _ (thaw-SameBooks acct.frozen_until account db)

  pub check-SameBooks :
      (account n : ℕ) (db : Db R) → Ensures (check st now account n db) (SameBooks db)
  unfolding check
  check-SameBooks account n db = elim (Option-cases (find account db.accounts)) [
    | inl q ↦
        rw (q, check)
          (Ensures-ok (SameBooks db) db
            (record { balances = refl; escrows = refl; transactions = refl }))
    | inr (acct, q) ↦ rw (q, check) (check_account-SameBooks account n db acct)
  ]
