-- ===== src/Table/Keys.antt =====
-- Primary keys: a table whose rows have different keys, and the keys that a query selects.
use a2a_settlement.Base.{
  ℕ, ◌≡◌, ◌≢◌, refl, ap, Bool, true, false, Option, none, some, List, [], ◌∷◌, ◌==◌, arith,
  contains, inl, inr, is_some, Bool-cases, ==_refl, ==→eq, ◌∙◌,
}
use a2a_settlement.Table.Defs.{Table, find, modify, append, select}
use a2a_settlement.Table.Laws.{is_some-find-modify, find-append_ne}

-- The row exists and satisfies the condition.
abbrev pub satisfies {ℓ} : {V : Type ℓ} → (V → Bool) → Option V → Bool
satisfies p none = false
satisfies p (some v) = p v

module _ {ℓ} {V : Type ℓ} where
  -- No two rows share a key: the primary-key constraint.
  abbrev pub UniqueKeys : Table V → Type 0
  UniqueKeys [] = Unit
  UniqueKeys ((j, v) ∷ t) = (is_some (find j t) ≡ false) × UniqueKeys t

  -- Different keys, each of a row that satisfies the condition.
  abbrev pub Pending : (V → Bool) → List ℕ → Table V → Type 0
  Pending p [] t = Unit
  Pending p (k ∷ ks) t = (satisfies p (find k t) ≡ true) × (contains k ks ≡ false) × Pending p ks t

  Pending-cons :
      (p : V → Bool) (ks : List ℕ) (j : ℕ) (v : V) (t : Table V)
      → is_some (find j t) ≡ false
      → Pending p ks t
      → (Pending p ks ((j, v) ∷ t)) × (contains j ks ≡ false)
  unfolding find
  Pending-cons p [] j v t h q = (tt, refl)
  Pending-cons p (k ∷ ks) j v t h q =
      let ih = Pending-cons p ks j v t h q.2 in
      elim (Bool-cases (j == k)) [
        | inl same ↦ let impossible : ⊥ = ground (arith, q.0, h, same) in absurd impossible
        | inr other ↦ ((rw other q.0, q.1, ih.0), ground (arith, other, ih.1))
      ]

  pub select-Pending : (p : V → Bool) (t : Table V) → UniqueKeys t → Pending p (select p t) t
  unfolding select find
  select-Pending p [] h = tt
  select-Pending p ((j, v) ∷ t) h =
      let ih = Pending-cons p (select p t) j v t h.0 (select-Pending p t h.1) in
      elim (Bool-cases (p v)) [
        | inl chosen ↦ rw (chosen, ==_refl j) ((chosen, ih.1, ih.0))
        | inr passed_over ↦ rw passed_over ih.0
      ]

  -- Pending rows stay so while another row is written.
  pub Pending-frame :
      (p : V → Bool) (ks : List ℕ) (k : ℕ) (t t' : Table V)
      → ((j : ℕ) → j ≢ k → find j t' ≡ find j t)
      → contains k ks ≡ false
      → Pending p ks t
      → Pending p ks t'
  Pending-frame p [] k t t' same h q = tt
  Pending-frame p (j ∷ ks) k t t' same h q =
      let ne : j ≢ k = ground (arith, h) in
      let rest : contains k ks ≡ false = ground (arith, h) in
      (rw (same j ne) q.0, q.1, Pending-frame p ks k t t' same rest q.2)

  pub UniqueKeys-modify :
      (k : ℕ) (f : V → V) (t : Table V) → UniqueKeys t → UniqueKeys (modify k f t)
  unfolding modify
  UniqueKeys-modify k f [] h = tt
  UniqueKeys-modify k f ((j, v) ∷ t) h = elim (Bool-cases (j == k)) [
    | inl here ↦ rw here h
    | inr there ↦ rw there ((is_some-find-modify j k f t ∙ h.0, UniqueKeys-modify k f t h.1))
  ]

  is_some-find-append :
      (j k : ℕ) (v : V) (t : Table V) → j ≢ k → is_some (find j (append k v t)) ≡ is_some (find j t)
  is_some-find-append j k v t ne = ap is_some (find-append_ne j k v t ne)

  pub UniqueKeys-append :
      (k : ℕ) (v : V) (t : Table V) → find k t ≡ none → UniqueKeys t → UniqueKeys (append k v t)
  unfolding append find
  UniqueKeys-append k v [] fresh h = (refl, tt)
  UniqueKeys-append k v ((j, w) ∷ t) fresh h = elim (Bool-cases (j == k)) [
    | inl here ↦ let impossible : ⊥ = ground (arith, fresh, here) in absurd impossible
    | inr there ↦
        let ne : j ≢ k = ground (arith, there) in
        (
          is_some-find-append j k v t ne ∙ h.0,
          UniqueKeys-append k v t (ground (arith, fresh, there)) h.1,
        )
  ]

  -- A row that is there stays, whatever is inserted.
  pub find-append-some :
      (j k : ℕ) (v w : V) (t : Table V) → find j t ≡ some w → find j (append k v t) ≡ some w
  unfolding append find
  find-append-some j k v w [] at = cc
  find-append-some j k v w ((i, u) ∷ t) at = elim (Bool-cases (i == j)) [
    | inl here ↦ rw here (let same : some u ≡ some w = ground (arith, at, here) in same)
    | inr there ↦ rw there (find-append-some j k v w t (ground (arith, at, there)))
  ]

  -- A row below another is found where keys are unique.
  pub find-cons-some :
      (j k : ℕ) (v w : V) (t : Table V)
      → is_some (find k t) ≡ false
      → find j t ≡ some v
      → find j ((k, w) ∷ t) ≡ some v
  unfolding find
  find-cons-some j k v w t fresh at = elim (Bool-cases (k == j)) [
    | inl same ↦
        let e : is_some (find j t) ≡ false = rw (← ==→eq k j same) fresh in
        let impossible : ⊥ = cc in absurd impossible
    | inr other ↦ rw other at
  ]
