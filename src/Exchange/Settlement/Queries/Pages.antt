-- ===== src/Exchange/Settlement/Queries/Pages.antt =====
-- About `list_escrows` of exchange/routes/settlement.py: which escrows a page lists, and how many.
use a2a_settlement.Base.{
  ℕ, zero, suc, ◌-◌, ◌≡◌, refl, ◌∙◌, ap, Bool, true, Option, List, [], ◌∷◌, map, length, min, inl,
  inr, Bool-cases, arith, &&-both,
}
use a2a_settlement.Table.{Table, find}
use a2a_settlement.Exchange.Models.{Escrow, Db}
use a2a_settlement.Exchange.Settlement.Queries.{
  EscrowDetail, EscrowFilter, rows_where, insert_by, sort_by, take_page, escrow_detail, is_wanted,
  is_party, is_text_of, is_status, or_null, is_older_escrow, list_escrows,
}
use Prim.Native.String.{String}

abbrev pub Each {ℓ κ} : {A : Type ℓ} → (A → Type κ) → List A → Type κ
Each P [] = Unit
Each P (x ∷ xs) = P x × Each P xs

module _ {ℓ κ} {A : Type ℓ} (P : A → Type κ) where
  insert_by-Each :
      (behind : A → A → Bool) (x : A) (xs : List A)
      → P x
      → Each P xs
      → Each P (insert_by behind x xs)
  unfolding insert_by
  insert_by-Each behind x [] h hs = (h, tt)
  insert_by-Each behind x (y ∷ ys) h hs = elim (Bool-cases (behind x y)) [
    | inl later ↦ rw later ((hs.0, insert_by-Each behind x ys h hs.1))
    | inr first ↦ rw first ((h, hs))
  ]

  sort_by-Each : (behind : A → A → Bool) (xs : List A) → Each P xs → Each P (sort_by behind xs)
  unfolding sort_by
  sort_by-Each behind [] hs = tt
  sort_by-Each behind (x ∷ xs) hs =
      insert_by-Each behind x (sort_by behind xs) hs.0 (sort_by-Each behind xs hs.1)

  take_page-Each : (offset limit : ℕ) (xs : List A) → Each P xs → Each P (take_page offset limit xs)
  unfolding take_page
  take_page-Each zero zero [] hs = tt
  take_page-Each zero (suc limit) [] hs = tt
  take_page-Each (suc offset) limit [] hs = tt
  take_page-Each (suc offset) limit (x ∷ xs) hs = take_page-Each offset limit xs hs.1
  take_page-Each zero zero (x ∷ xs) hs = tt
  take_page-Each zero (suc limit) (x ∷ xs) hs = (hs.0, take_page-Each zero limit xs hs.1)

module _ {ℓ} {A : Type ℓ} where
  rows_where-Each : (p : A → Bool) (xs : List A) → Each (λ x. p x ≡ true) (rows_where p xs)
  unfolding rows_where
  rows_where-Each p [] = tt
  rows_where-Each p (x ∷ xs) = elim (Bool-cases (p x)) [
    | inl wanted ↦ rw wanted ((wanted, rows_where-Each p xs))
    | inr passed ↦ rw passed (rows_where-Each p xs)
  ]

  length-insert_by :
      (behind : A → A → Bool) (x : A) (xs : List A)
      → length (insert_by behind x xs) ≡ suc (length xs)
  unfolding insert_by
  length-insert_by behind x [] = refl
  length-insert_by behind x (y ∷ ys) = elim (Bool-cases (behind x y)) [
    | inl later ↦ rw later (ap suc (length-insert_by behind x ys))
    | inr first ↦ rw first refl
  ]

  length-sort_by : (behind : A → A → Bool) (xs : List A) → length (sort_by behind xs) ≡ length xs
  unfolding sort_by
  length-sort_by behind [] = refl
  length-sort_by behind (x ∷ xs) =
      length-insert_by behind x (sort_by behind xs) ∙ ap suc (length-sort_by behind xs)

  length-take_page :
      (offset limit : ℕ) (xs : List A)
      → length (take_page offset limit xs) ≡ min limit (length xs - offset)
  unfolding take_page
  length-take_page zero zero [] = omega arith
  length-take_page zero (suc limit) [] = omega arith
  length-take_page (suc offset) limit [] = omega arith
  length-take_page (suc offset) limit (x ∷ xs) = omega (arith, length-take_page offset limit xs)
  length-take_page zero zero (x ∷ xs) = omega arith
  length-take_page zero (suc limit) (x ∷ xs) = omega (arith, length-take_page zero limit xs)

module _ {ℓ ℓ'} {A : Type ℓ} {B : Type ℓ'} (f : A → B) where
  length-map : (xs : List A) → length (map f xs) ≡ length xs
  length-map [] = refl
  length-map (x ∷ xs) = ap suc (length-map xs)

  map-Each {κ} :
      (P : A → Type κ) (Q : B → Type κ)
      → ((x : A) → P x → Q (f x))
      → (xs : List A) → Each P xs
      → Each Q (map f xs)
  map-Each P Q g [] hs = tt
  map-Each P Q g (x ∷ xs) hs = (g x hs.0, map-Each P Q g xs hs.1)

-- What a listed escrow satisfies: the caller is a party, and its status and task are those asked for.
abbrev pub IsListed : ℕ → EscrowFilter → EscrowDetail → Type 0
IsListed current f d =
    (is_party current d.row ≡ true)
    × (is_text_of f.task_id d.row.task_id ≡ true)
    × (is_status f.status d.row.status ≡ true)

wanted-IsListed :
    (current : ℕ) (f : EscrowFilter) (groups : Table (Option String)) (ke : ℕ × Escrow)
    → is_wanted current f groups ke ≡ true
    → IsListed current f (escrow_detail ke)
wanted-IsListed current f groups (k, e) wanted =
    let h = &&-both (is_party current e) _ wanted in
    let g = &&-both (is_text_of f.task_id e.task_id) _ h.1 in
    let b = &&-both (is_text_of f.group_id (or_null (find k groups))) _ g.1 in (h.0, g.0, b.1)

module _ {R : Type 0} where
  pub list_escrows_page :
      (current : ℕ) (f : EscrowFilter) (groups : Table (Option String)) (db : Db R)
      → Each (IsListed current f) (list_escrows current f groups db).escrows
        × (length (list_escrows current f groups db).escrows
            ≡ min f.limit ((list_escrows current f groups db).total - f.offset))
  unfolding list_escrows
  list_escrows_page current f groups db =
      let found = rows_where (is_wanted current f groups) db.escrows in
      let sorted = sort_by is_older_escrow found in
      (
        map-Each escrow_detail (λ x. is_wanted current f groups x ≡ true) (IsListed current f)
            (wanted-IsListed current f groups) (take_page f.offset f.limit sorted)
            (take_page-Each _ f.offset f.limit sorted (
              sort_by-Each _ is_older_escrow found
                (rows_where-Each (is_wanted current f groups) db.escrows))),
        length-map escrow_detail (take_page f.offset f.limit sorted)
            ∙ length-take_page f.offset f.limit sorted
            ∙ ap (λ n. min f.limit (n - f.offset)) (length-sort_by is_older_escrow found),
      )
