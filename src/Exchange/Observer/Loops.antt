-- ===== src/Exchange/Observer/Loops.antt =====
-- The invariant rules of the observer's loops.
use a2a_settlement.Base.{
  ℕ, ◌≡◌, ◌≢◌, Bool, true, some, List, [], ◌∷◌, arith, inl, inr, Option-cases,
}
use a2a_settlement.Table.{find}
use a2a_settlement.Table.Keys.{Pending, Pending-frame}
use a2a_settlement.Exchange.Models.{Escrow, Db}
use a2a_settlement.Exchange.Observer.Defs.{for_each}

module _ {ℓ} {R : Type 0} (P : Db R → Type ℓ) (body : ℕ → Escrow → Db R → Db R) where
  -- What every pass of the body keeps, the loop keeps.
  pub for_each-keeps :
      ((k : ℕ) (e : Escrow) (db : Db R) → find k db.escrows ≡ some e → P db → P (body k e db))
      → (ks : List ℕ) (db : Db R) → P db
      → P (for_each body ks db)
  unfolding for_each
  for_each-keeps step [] db h = h
  for_each-keeps step (k ∷ ks) db h = elim (Option-cases (find k db.escrows)) [
    | inl e ↦ rw e (for_each-keeps step ks db h)
    | inr (x, e) ↦ rw e (for_each-keeps step ks (body k x db) (step k x db e h))
  ]

  -- The same where the body relies on the condition by which its rows were selected, and touches
  -- no other row.
  pub for_each-keeps_pending :
      (q : Escrow → Bool)
      → ((k : ℕ) (e : Escrow) (db : Db R)
          → find k db.escrows ≡ some e
          → q e ≡ true
          → P db
          → P (body k e db))
      → ((k : ℕ) (e : Escrow) (db : Db R) (j : ℕ)
          → j ≢ k
          → find j (body k e db).escrows ≡ find j db.escrows)
      → (ks : List ℕ) (db : Db R) → Pending q ks db.escrows
      → P db
      → P (for_each body ks db)
  unfolding for_each
  for_each-keeps_pending q step frame [] db pending h = h
  for_each-keeps_pending q step frame (k ∷ ks) db pending h =
      elim (Option-cases (find k db.escrows)) [
        | inl e ↦ let impossible : ⊥ = ground (arith, e, pending.0) in absurd impossible
        | inr (x, e) ↦
            let chosen : q x ≡ true = ground (arith, e, pending.0) in
            rw e (
              for_each-keeps_pending q step frame ks (body k x db)
                (Pending-frame q ks k db.escrows (body k x db).escrows (frame k x db) pending.1
                  pending.2)
                (step k x db e chosen h))
      ]
