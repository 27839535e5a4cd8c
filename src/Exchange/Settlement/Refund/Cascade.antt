-- ===== src/Exchange/Settlement/Refund/Cascade.antt =====
-- About the recursion of `_auto_refund_dependents` of exchange/routes/settlement.py.
use a2a_settlement.Base.{
  ℕ, zero, suc, ◌+◌, ◌-◌, ◌≤◌, ◌<◌, ◌≡◌, refl, ◌∙◌, true, List, [], ◌∷◌, arith, inl, inr,
  Option-cases, contains, ==_refl,
}
use a2a_settlement.Table.{Table, find}
use a2a_settlement.Exchange.Errors.{Result, ok, ◌>>=◌, Ensures, Ensures-ok, Ensures-bind, Returns}
use a2a_settlement.Exchange.Models.{EscrowStatus, Escrow, Db}
use a2a_settlement.Exchange.Ledger.{net}
use a2a_settlement.Exchange.Observer.{resolve_as, refund_tx}
use a2a_settlement.Exchange.Settlement.Common.Books.{net-repaid}
use a2a_settlement.Exchange.Settlement.Refund.{
  dependents_of, refund_dependent, refund_each, auto_refund_dependents,
}

module _ {R : Type 0} (now : ℕ) where
  net-refund_dependent :
      (k : ℕ) (e : Escrow) (db : Db R) → net (refund_dependent now k e db) ≡ net db
  unfolding refund_dependent
  net-refund_dependent k e db =
      net-repaid k e.requester_id (e.amount + e.fee_amount) (resolve_as EscrowStatus.refunded now)
        (refund_tx now k e) db (refl, refl)

  net-refund_each :
      (again : ℕ → Db R → Result (Db R))
      → ((k : ℕ) (db : Db R) → Ensures (again k db) (λ d. net d ≡ net db))
      → (ks : List ℕ) (db : Db R) → Ensures (refund_each now again ks db) (λ d. net d ≡ net db)
  unfolding refund_each
  net-refund_each again step [] db = Ensures-ok _ _ refl
  net-refund_each again step (k ∷ ks) db = elim (Option-cases (find k db.escrows)) [
    | inl q ↦ rw (q, refund_each) (net-refund_each again step ks db)
    | inr (e, q) ↦ elim (Option-cases (find e.requester_id db.balances)) [
      | inl p ↦ rw (q, refund_each, p) (net-refund_each again step ks db)
      | inr (b, p) ↦
          rw (q, refund_each, p)
            (Ensures-bind _ _ λ d hd d' hd'.
              net-refund_each again step ks d d' hd'
              ∙ (step k (refund_dependent now k e db) d hd ∙ net-refund_dependent k e db))
    ]
  ]

  pub net-auto_refund_dependents :
      (rows : Table Escrow) (fuel upstream : ℕ) (db d : Db R)
      → auto_refund_dependents now rows fuel upstream db ≡ ok d
      → net d ≡ net db
  unfolding auto_refund_dependents
  net-auto_refund_dependents rows zero upstream db d q =
      let impossible : ⊥ = cc in absurd impossible
  net-auto_refund_dependents rows (suc fuel) upstream db d q =
      net-refund_each (auto_refund_dependents now rows fuel) (net-auto_refund_dependents rows fuel)
        (dependents_of upstream rows) db d q

  refund_each-Returns :
      (again : ℕ → Db R → Result (Db R)) (ks : List ℕ)
      → ((k : ℕ) → contains k ks ≡ true → (db : Db R) → Returns (again k db))
      → (db : Db R) → Returns (refund_each now again ks db)
  unfolding refund_each ◌>>=◌
  refund_each-Returns again [] step db = (db, refl)
  refund_each-Returns again (k ∷ ks) step db =
      let rest = refund_each-Returns again ks (λ j h. step j (ground (arith, h))) in
      elim (Option-cases (find k db.escrows)) [
        | inl q ↦ rw (q, refund_each) (rest db)
        | inr (e, q) ↦ elim (Option-cases (find e.requester_id db.balances)) [
          | inl p ↦ rw (q, refund_each, p) (rest db)
          | inr (b, p) ↦
              let first = step k (ground (arith, ==_refl k)) (refund_dependent now k e db) in
              rw (q, refund_each, p, first.1, ◌>>=◌) (rest first.0)
        ]
      ]

  -- The recursion over dependents returns, whatever the database, if every escrow has a bounded
  -- rank above the ranks of those that it depends on, as it does by the order of creation, and
  -- the fuel exceeds the number of ranks above the refunded escrow's.
  pub auto_refund_dependents-Returns :
      (rows : Table Escrow) (rank : ℕ → ℕ) (bound fuel upstream : ℕ) (db : Db R)
      → ((k j : ℕ) → contains j (dependents_of k rows) ≡ true → rank k < rank j)
      → ((k : ℕ) → rank k ≤ bound)
      → bound - rank upstream < fuel
      → Returns (auto_refund_dependents now rows fuel upstream db)
  unfolding auto_refund_dependents
  auto_refund_dependents-Returns rows rank bound zero upstream db up top h = absurd (omega arith)
  auto_refund_dependents-Returns rows rank bound (suc fuel) upstream db up top h =
      refund_each-Returns (auto_refund_dependents now rows fuel) (dependents_of upstream rows)
        (λ k dependent d. auto_refund_dependents-Returns rows rank bound fuel k d up top (
          let above = up upstream k dependent in
          let below = top k in omega (arith, above, below, h)))
        db

module _ {R : Type 0} (now : ℕ) where
  pub auto_refund_dependents_none :
      (rows : Table Escrow) (fuel upstream : ℕ) (db d : Db R)
      → dependents_of upstream rows ≡ []
      → auto_refund_dependents now rows fuel upstream db ≡ ok d
      → d ≡ db
  unfolding auto_refund_dependents refund_each
  auto_refund_dependents_none rows zero upstream db d alone q =
      let impossible : ⊥ = cc in absurd impossible
  auto_refund_dependents_none rows (suc fuel) upstream db d alone q =
      let same : ok db ≡ ok d = rw (alone, refund_each) at q in cc
