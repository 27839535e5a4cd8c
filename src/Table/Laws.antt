-- ===== src/Table/Laws.antt =====
-- What the table operations do to a lookup and to a sum over the rows.
use a2a_settlement.Base.{
  ℕ, ◌+◌, ◌≡◌, ◌≢◌, refl, ap, none, some, [], ◌∷◌, ◌==◌, arith, inl, inr, if◌then◌else◌, is_some,
  Bool-cases,
}
use a2a_settlement.Int.{ℤ, pos_part, neg_part, ◌+ℤ◌, int_laws}
use a2a_settlement.Table.Defs.{Table, find, modify, append, total, count}
use mathlib.Core.Option

module _ {ℓ} {V : Type ℓ} where
  pub find-modify :
      (j k : ℕ) (f : V → V) (t : Table V)
      → find j (modify k f t) ≡ (if k == j then Option.map f (find j t) else find j t)
  unfolding find modify
  find-modify j k f [] = ground arith
  find-modify j k f ((i, v) ∷ t) = ground (arith, find-modify j k f t)

  pub find-modify_self :
      (k : ℕ) (f : V → V) (t : Table V) (v : V)
      → find k t ≡ some v
      → find k (modify k f t) ≡ some (f v)
  unfolding find modify
  find-modify_self k f [] v e = ground arith
  find-modify_self k f ((i, w) ∷ t) v e = ground (arith, find-modify_self k f t v)

  pub find-modify_ne :
      (j k : ℕ) (f : V → V) (t : Table V) → j ≢ k → find j (modify k f t) ≡ find j t
  unfolding find modify
  find-modify_ne j k f [] h = refl
  find-modify_ne j k f ((i, v) ∷ t) h = ground (arith, find-modify_ne j k f t h)

  pub is_some-find-modify :
      (j k : ℕ) (f : V → V) (t : Table V) → is_some (find j (modify k f t)) ≡ is_some (find j t)
  unfolding find modify
  is_some-find-modify j k f [] = refl
  is_some-find-modify j k f ((i, v) ∷ t) = ground (arith, is_some-find-modify j k f t)

  pub find-append_self :
      (k : ℕ) (v : V) (t : Table V) → find k t ≡ none → find k (append k v t) ≡ some v
  unfolding find append
  find-append_self k v [] h = ground arith
  find-append_self k v ((i, w) ∷ t) h = ground (arith, find-append_self k v t)

  pub find-append_ne : (j k : ℕ) (v : V) (t : Table V) → j ≢ k → find j (append k v t) ≡ find j t
  unfolding find append
  find-append_ne j k v [] h = ground arith
  find-append_ne j k v ((i, w) ∷ t) h = ground (arith, find-append_ne j k v t h)

  -- A sum changes by what the modified row changes.
  pub total-modify :
      (g : V → ℤ) (k : ℕ) (f : V → V) (t : Table V) (v : V)
      → find k t ≡ some v
      → total g (modify k f t) +ℤ g v ≡ total g t +ℤ g (f v)
  unfolding find modify total
  total-modify g k f [] v e = ground arith
  total-modify g k f ((i, w) ∷ t) v e = elim (Bool-cases (i == k)) [
    | inl here ↦ rw here (let same : w ≡ v = ground (arith, here) in rw same (omega int_laws))
    | inr there ↦ rw there (
        let ih = total-modify g k f t v (ground (arith, there)) in
        omega (int_laws, ap pos_part ih, ap neg_part ih))
  ]

  pub count-modify :
      (g : V → ℕ) (k : ℕ) (f : V → V) (t : Table V) (v : V)
      → find k t ≡ some v
      → count g (modify k f t) + g v ≡ count g t + g (f v)
  unfolding find modify count
  count-modify g k f [] v e = ground arith
  count-modify g k f ((i, w) ∷ t) v e = ground (arith, count-modify g k f t v)

  pub count-append :
      (g : V → ℕ) (k : ℕ) (v : V) (t : Table V) → count g (append k v t) ≡ count g t + g v
  unfolding append count
  count-append g k v [] = omega arith
  count-append g k v ((i, w) ∷ t) = omega (arith, count-append g k v t)

  pub total-append :
      (g : V → ℤ) (k : ℕ) (v : V) (t : Table V) → total g (append k v t) ≡ total g t +ℤ g v
  unfolding append total
  total-append g k v [] = omega int_laws
  total-append g k v ((i, w) ∷ t) =
      let ih = total-append g k v t in omega (int_laws, ap pos_part ih, ap neg_part ih)

  pub modify_missing : (k : ℕ) (f : V → V) (t : Table V) → find k t ≡ none → modify k f t ≡ t
  unfolding find modify
  modify_missing k f [] e = refl
  modify_missing k f ((i, w) ∷ t) e = ground (arith, modify_missing k f t)
