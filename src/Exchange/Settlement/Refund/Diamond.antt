-- ===== src/Exchange/Settlement/Refund/Diamond.antt =====
-- About a dependent that the recursion of `_auto_refund_dependents` of
-- exchange/routes/settlement.py reaches on two paths.
use a2a_settlement.Base.{
  ℕ, suc, ◌+◌, ◌≡◌, ◌≢◌, refl, ◌∙◌, true, some, List, [], ◌∷◌, arith, is_some, inl, inr,
  Option-cases,
}
use a2a_settlement.Int.{pos, ◌+ℤ◌, ◌≈◌, int_laws}
use a2a_settlement.Table.{Table, find}
use a2a_settlement.Table.Laws.{is_some-find-modify, find-modify_self, find-modify_ne}
use a2a_settlement.Exchange.Errors.{Result, ok, ◌>>=◌}
use a2a_settlement.Exchange.Models.{EscrowStatus, Escrow, Db}
use a2a_settlement.Exchange.Ledger.{
  gap, owed_by, unhold, modify_balance, modify_escrow, add_transaction,
}
use a2a_settlement.Exchange.Ledger.Gap.{only}
use a2a_settlement.Exchange.Observer.{resolve_as, refund_tx}
use a2a_settlement.Exchange.Settlement.Common.Books.{gap-repaid}
use a2a_settlement.Exchange.Settlement.Refund.{
  dependents_of, refund_dependent, refund_each, auto_refund_dependents,
}

module _ {R : Type 0} (now a : ℕ) where
  gap-refund_dependent :
      (k : ℕ) (e x : Escrow) (db : Db R)
      → is_some (find e.requester_id db.balances) ≡ true
      → find k db.escrows ≡ some x
      → gap a (refund_dependent now k e db)
          +ℤ pos (owed_by a (resolve_as EscrowStatus.refunded now x))
          +ℤ pos (only a e.requester_id (e.amount + e.fee_amount))
        ≈ gap a db +ℤ pos (owed_by a x)
  unfolding refund_dependent
  gap-refund_dependent k e x db known at =
      gap-repaid k e.requester_id (e.amount + e.fee_amount) (resolve_as EscrowStatus.refunded now)
        (refund_tx now k e) db a x known at

  -- A second refund of an escrow that is already refunded takes its whole amount out of what is
  -- held from the requester, though nothing is owed for it.
  pub gap-refund_dependent_again :
      (k : ℕ) (x : Escrow) (db : Db R)
      → is_some (find x.requester_id db.balances) ≡ true
      → find k db.escrows ≡ some x
      → x.status ≡ EscrowStatus.refunded
      → gap a (refund_dependent now k x db) +ℤ pos (only a x.requester_id (x.amount + x.fee_amount))
        ≈ gap a db
  gap-refund_dependent_again k x db known at refunded =
      omega (int_laws, gap-refund_dependent k x x db known at, ground_owed x refunded)
    where
      ground_owed :
          (y : Escrow)
          → y.status ≡ EscrowStatus.refunded
          → owed_by a (resolve_as EscrowStatus.refunded now y) ≡ owed_by a y
      ground_owed y h = ground (arith, h)

module _ {R : Type 0} (now : ℕ) where
  refund_each-cons :
      (again : ℕ → Db R → Result (Db R)) (k : ℕ) (ks : List ℕ) (e : Escrow) (db d : Db R)
      → find k db.escrows ≡ some e
      → is_some (find e.requester_id db.balances) ≡ true
      → again k (refund_dependent now k e db) ≡ ok d
      → refund_each now again (k ∷ ks) db ≡ refund_each now again ks d
  unfolding refund_each ◌>>=◌
  refund_each-cons again k ks e db d q known step =
      elim (Option-cases (find e.requester_id db.balances)) [
        | inl p ↦ let impossible : ⊥ = cc in absurd impossible
        | inr (b, p) ↦ rw (q, refund_each, p, step, ◌>>=◌) refl
      ]

  balances-refund_dependent :
      (j k : ℕ) (e : Escrow) (db : Db R)
      → is_some (find j (refund_dependent now k e db).balances) ≡ is_some (find j db.balances)
  unfolding refund_dependent modify_balance modify_escrow add_transaction
  balances-refund_dependent j k e db =
      is_some-find-modify j e.requester_id (unhold (e.amount + e.fee_amount)) db.balances

  find-refund_dependent :
      (k : ℕ) (e x : Escrow) (db : Db R)
      → find k db.escrows ≡ some x
      → find k (refund_dependent now k e db).escrows ≡ some (resolve_as EscrowStatus.refunded now x)
  unfolding refund_dependent modify_balance modify_escrow add_transaction
  find-refund_dependent k e x db at =
      find-modify_self k (resolve_as EscrowStatus.refunded now) db.escrows x at

  find-refund_dependent_ne :
      (j k : ℕ) (e : Escrow) (db : Db R)
      → j ≢ k
      → find j (refund_dependent now k e db).escrows ≡ find j db.escrows
  unfolding refund_dependent modify_balance modify_escrow add_transaction
  find-refund_dependent_ne j k e db ne =
      find-modify_ne j k (resolve_as EscrowStatus.refunded now) db.escrows ne

  -- The refund of `b` and then of `c`, and `c` once more.
  abbrev pub refunded_once : ℕ → ℕ → Escrow → Escrow → Db R → Db R
  refunded_once b c eb ec db = refund_dependent now c ec (refund_dependent now b eb db)

  abbrev pub refunded_twice : ℕ → ℕ → Escrow → Escrow → Db R → Db R
  refunded_twice b c eb ec db =
      refund_dependent now c (resolve_as EscrowStatus.refunded now ec) (refunded_once b c eb ec db)

  module _ (rows : Table Escrow) (x b c fuel : ℕ) (eb ec : Escrow) (db : Db R)
      (of_x : dependents_of x rows ≡ b ∷ c ∷ []) (of_b : dependents_of b rows ≡ c ∷ [])
      (of_c : dependents_of c rows ≡ []) (apart : c ≢ b) (at_b : find b db.escrows ≡ some eb)
      (at_c : find c db.escrows ≡ some ec)
      (known_b : is_some (find eb.requester_id db.balances) ≡ true)
      (known_c : is_some (find ec.requester_id db.balances) ≡ true) where
    abbrev after_b : Db R
    after_b = refund_dependent now b eb db

    abbrev once : Db R
    once = refunded_once b c eb ec db

    abbrev twice : Db R
    twice = refunded_twice b c eb ec db

    no_more : (d : Db R) → auto_refund_dependents now rows (suc fuel) c d ≡ ok d
    unfolding auto_refund_dependents refund_each
    no_more d = rw (of_c, refund_each) refl

    no_more' : (d : Db R) → auto_refund_dependents now rows (suc (suc fuel)) c d ≡ ok d
    unfolding auto_refund_dependents refund_each
    no_more' d = rw (of_c, refund_each) refl

    find_c : find c after_b.escrows ≡ some ec
    find_c = find-refund_dependent_ne c b eb db apart ∙ at_c

    known_c' : is_some (find ec.requester_id after_b.balances) ≡ true
    known_c' = balances-refund_dependent ec.requester_id b eb db ∙ known_c

    below_b : auto_refund_dependents now rows (suc (suc fuel)) b after_b ≡ ok once
    unfolding auto_refund_dependents refund_each
    below_b = rw of_b (
        refund_each-cons (auto_refund_dependents now rows (suc fuel)) c [] ec after_b once find_c
          known_c' (no_more once))

    auto_refund_dependents-twice :
        auto_refund_dependents now rows (suc (suc (suc fuel))) x db ≡ ok twice
    unfolding auto_refund_dependents refund_each
    auto_refund_dependents-twice = rw of_x (
        refund_each-cons (auto_refund_dependents now rows (suc (suc fuel))) b (c ∷ []) eb db once
          at_b known_b below_b
        ∙ refund_each-cons (auto_refund_dependents now rows (suc (suc fuel))) c []
            (resolve_as EscrowStatus.refunded now ec) once twice
            (find-refund_dependent c ec ec after_b find_c)
            (balances-refund_dependent ec.requester_id c ec after_b ∙ known_c') (no_more' twice))

    known_again : is_some (find ec.requester_id once.balances) ≡ true
    known_again = balances-refund_dependent ec.requester_id c ec after_b ∙ known_c'

    open_again : find c once.escrows ≡ some (resolve_as EscrowStatus.refunded now ec)
    open_again = find-refund_dependent c ec ec after_b find_c

    -- With fuel for three levels at least, if the held dependents that the rows list are b and
    -- then c for x, c alone for b and none for c, where b and c are two stored escrows whose
    -- requesters have balances, the recursion over the dependents of x returns and refunds c
    -- twice: once below b, and again in the list that was read before. The second time takes its
    -- amount and fee out of what is held from its requester, though nothing is owed for it.
    pub diamond_overpays :
        (a : ℕ)
        → (auto_refund_dependents now rows (suc (suc (suc fuel))) x db
            ≡ ok (refunded_twice b c eb ec db))
          × (gap a (refunded_twice b c eb ec db)
                +ℤ pos (only a ec.requester_id (ec.amount + ec.fee_amount))
              ≈ gap a (refunded_once b c eb ec db))
    diamond_overpays a = (
      auto_refund_dependents-twice,
      gap-refund_dependent_again now a c (resolve_as EscrowStatus.refunded now ec) once known_again
          open_again refl,
    )
