-- ===== src/Exchange/Observer/Frame.antt =====
-- About the escrows that the expiry of exchange/observers.py does not write.
use a2a_settlement.Base.{
  ℕ, ◌≡◌, ◌≢◌, refl, ◌∙◌, Bool, true, false, some, List, [], ◌∷◌, arith, contains, ◌&&◌, ltb, ◌==◌,
  inl, inr, Bool-cases, Option-cases,
}
use a2a_settlement.Table.{Table, find, select}
use a2a_settlement.Table.Keys.{UniqueKeys, Pending, satisfies, select-Pending}
use a2a_settlement.Exchange.Models.{Escrow, Db}
use a2a_settlement.Exchange.Ledger.{modify_balance, modify_escrow, add_transaction}
use a2a_settlement.Exchange.Observer.Backing.{find-refund_escrow}
use a2a_settlement.Exchange.Observer.Defs.{
  for_each, refund_escrow, is_held, stale_held, expire_stale_held,
}

contains-Pending :
    (p : Escrow → Bool) (ks : List ℕ) (k : ℕ) (t : Table Escrow)
    → Pending p ks t
    → satisfies p (find k t) ≡ false
    → contains k ks ≡ false
contains-Pending p [] k t pending h = refl
contains-Pending p (j ∷ ks) k t pending h = elim (Bool-cases (k == j)) [
  | inl here ↦
      let same : k ≡ j = ground (arith, here) in
      let chosen : satisfies p (find k t) ≡ true = rw same pending.0 in
      let impossible : ⊥ = cc in absurd impossible
  | inr other ↦ rw other (contains-Pending p ks k t pending.2 h)
]

module _ {R : Type 0} where
  pub find-for_each :
      (now k : ℕ) (ks : List ℕ) (db : Db R)
      → contains k ks ≡ false
      → find k (for_each (refund_escrow now) ks db).escrows ≡ find k db.escrows
  unfolding for_each
  find-for_each now k [] db h = refl
  find-for_each now k (j ∷ ks) db h =
      let ne : k ≢ j = ground (arith, h) in
      let rest : contains k ks ≡ false = ground (arith, h) in
      elim (Option-cases (find j db.escrows)) [
        | inl q ↦ rw (q, for_each) (find-for_each now k ks db rest)
        | inr (e, q) ↦
            rw (q, for_each)
              (find-for_each now k ks (refund_escrow now j e db) rest
                ∙ find-refund_escrow now j e db k ne)
      ]

  pub find-expire_stale_held :
      (now k : ℕ) (e : Escrow) (db : Db R)
      → UniqueKeys db.escrows
      → find k db.escrows ≡ some e
      → (is_held e.status && ltb e.expires_at now) ≡ false
      → find k (expire_stale_held now db).escrows ≡ some e
  unfolding expire_stale_held stale_held
  find-expire_stale_held now k e db keys at fresh =
      let chosen = select (λ x. is_held x.status && ltb x.expires_at now) db.escrows in
      find-for_each now k chosen db (
        contains-Pending (λ x. is_held x.status && ltb x.expires_at now) chosen k db.escrows
          (select-Pending (λ x. is_held x.status && ltb x.expires_at now) db.escrows keys)
          (rw at fresh))
      ∙ at

  accounts-refund_escrow :
      (now k : ℕ) (e : Escrow) (db : Db R) → (refund_escrow now k e db).accounts ≡ db.accounts
  unfolding refund_escrow modify_balance modify_escrow add_transaction
  accounts-refund_escrow now k e db = elim (Option-cases (find e.requester_id db.balances)) [
    | inl q ↦ rw (q, refund_escrow) refl
    | inr (b, q) ↦ rw (q, refund_escrow) refl
  ]

  accounts-for_each :
      (now : ℕ) (ks : List ℕ) (db : Db R)
      → (for_each (refund_escrow now) ks db).accounts ≡ db.accounts
  unfolding for_each
  accounts-for_each now [] db = refl
  accounts-for_each now (j ∷ ks) db = elim (Option-cases (find j db.escrows)) [
    | inl q ↦ rw (q, for_each) (accounts-for_each now ks db)
    | inr (e, q) ↦
        rw (q, for_each)
          (accounts-for_each now ks (refund_escrow now j e db) ∙ accounts-refund_escrow now j e db)
  ]

  -- The expiry does not write to accounts.
  pub accounts-expire_stale_held :
      (now : ℕ) (db : Db R) → (expire_stale_held now db).accounts ≡ db.accounts
  unfolding expire_stale_held
  accounts-expire_stale_held now db = accounts-for_each now _ db
