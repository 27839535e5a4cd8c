-- ===== src/Compliance/Merkle/Rows.antt =====
-- The rows of a Merkle tree over a list of hashes, independently of how compliance/merkle.py stores
-- them: each row pairs the nodes of the one below, and an odd last node is paired with itself.
use a2a_settlement.Base.{
  ℕ, zero, suc, ◌+◌, ◌/◌, ◌≤◌, ◌<◌, ◌≡◌, refl, Option, none, some, List, [], ◌∷◌, ◌++◌, arith,
  length, get_elem?,
}

abbrev pub double : ℕ → ℕ
double zero = zero
double (suc n) = suc (suc (double n))

pub double_lem : (n : ℕ) → double n ≡ n + n
double_lem zero = refl
double_lem (suc n) = omega (arith, double_lem n)

module _ {H : Type 0} where
  pub get_elem?-length : (xs : List H) (i : ℕ) → length xs ≤ i → get_elem? xs i ≡ none
  get_elem?-length [] i h = refl
  get_elem?-length (x ∷ xs) zero h = absurd (omega arith)
  get_elem?-length (x ∷ xs) (suc i) h = get_elem?-length xs i (omega arith)

  pub get_elem?-some : (xs : List H) (i : ℕ) → i < length xs → (x : H) × (get_elem? xs i ≡ some x)
  get_elem?-some [] i h = absurd (omega arith)
  get_elem?-some (x ∷ xs) zero h = (x, refl)
  get_elem?-some (x ∷ xs) (suc i) h = get_elem?-some xs i (omega arith)

  -- Two rows that agree but for their last node, which one of them may lack.
  pub data Extends : List H → List H → Type 0 where
    grown : (w : H) → Extends [] (w ∷ [])
    changed : (v w : H) → Extends (v ∷ []) (w ∷ [])
    keep : (a : H) {xs ys : List H} → Extends xs ys → Extends (a ∷ xs) (a ∷ ys)

  pub Extends-append : (xs : List H) (w : H) → Extends xs (xs ++ w ∷ [])
  Extends-append [] w = Extends.grown w
  Extends-append (x ∷ xs) w = Extends.keep x (Extends-append xs w)

  pub length-append_one : (xs : List H) (w : H) → length (xs ++ w ∷ []) ≡ suc (length xs)
  length-append_one [] w = refl
  length-append_one (x ∷ xs) w = omega (arith, length-append_one xs w)

  pub get_elem?-append_last : (xs : List H) (w : H) → get_elem? (xs ++ w ∷ []) (length xs) ≡ some w
  get_elem?-append_last [] w = refl
  get_elem?-append_last (x ∷ xs) w = get_elem?-append_last xs w

  pub get_elem?-Extends :
      {xs ys : List H} (i : ℕ) → Extends xs ys → suc i < length ys → get_elem? ys i ≡ get_elem? xs i
  get_elem?-Extends i (Extends.grown w) h = absurd (omega arith)
  get_elem?-Extends i (Extends.changed v w) h = absurd (omega arith)
  get_elem?-Extends zero (Extends.keep a e) h = refl
  get_elem?-Extends (suc i) (Extends.keep a e) h = get_elem?-Extends i e (omega arith)

  pub length-Extends : {xs ys : List H} → Extends xs ys → length ys ≤ suc (length xs)
  length-Extends (Extends.grown w) = omega arith
  length-Extends (Extends.changed v w) = omega arith
  length-Extends (Extends.keep a e) = omega (arith, length-Extends e)

module _ {H : Type 0} (node : H → H → H) where
  unfoldable pub level_up : List H → List H
  level_up [] = []
  level_up (x ∷ []) = node x x ∷ []
  level_up (x ∷ y ∷ xs) = node x y ∷ level_up xs

  -- The k-th row above a row.
  unfoldable pub row : ℕ → List H → List H
  unfolding level_up
  row zero xs = xs
  row (suc k) xs = row k (level_up xs)

  -- The tree has a k-th row above this one: every row below it has two nodes at least.
  abbrev pub IsLevel : ℕ → List H → Type 0
  IsLevel zero xs = Unit {0}
  IsLevel (suc k) xs = (1 < length xs) × IsLevel k (level_up xs)

  -- The root: the node of the first row that has one node.
  unfoldable pub root_from : ℕ → List H → Option H
  unfolding level_up
  root_from fuel [] = none
  root_from fuel (x ∷ []) = some x
  root_from zero (x ∷ y ∷ xs) = none
  root_from (suc fuel) (x ∷ y ∷ xs) = root_from fuel (level_up (x ∷ y ∷ xs))

  unfoldable pub merkle_root : List H → Option H
  unfolding root_from
  merkle_root xs = root_from (length xs) xs

  pub length-level_up : (xs : List H) → length (level_up xs) ≡ (length xs + 1) / 2
  unfolding level_up
  length-level_up [] = refl
  length-level_up (x ∷ []) = refl
  length-level_up (x ∷ y ∷ xs) = omega (arith, length-level_up xs)

  pub length-row_le : (k : ℕ) (xs : List H) → length (row k xs) ≤ length xs
  unfolding row
  length-row_le zero xs = omega arith
  length-row_le (suc k) xs = omega (arith, length-row_le k (level_up xs), length-level_up xs)

  pub get_elem?-level_up_pair :
      (xs : List H) (i : ℕ) (a b : H)
      → get_elem? xs (double i) ≡ some a
      → get_elem? xs (suc (double i)) ≡ some b
      → get_elem? (level_up xs) i ≡ some (node a b)
  unfolding level_up
  get_elem?-level_up_pair [] i a b p q = cc
  get_elem?-level_up_pair (x ∷ []) zero a b p q = cc
  get_elem?-level_up_pair (x ∷ []) (suc i) a b p q = cc
  get_elem?-level_up_pair (x ∷ y ∷ xs) zero a b p q = cc
  get_elem?-level_up_pair (x ∷ y ∷ xs) (suc i) a b p q = get_elem?-level_up_pair xs i a b p q

  pub get_elem?-level_up_single :
      (xs : List H) (i : ℕ) (a : H)
      → get_elem? xs (double i) ≡ some a
      → get_elem? xs (suc (double i)) ≡ none
      → get_elem? (level_up xs) i ≡ some (node a a)
  unfolding level_up
  get_elem?-level_up_single [] i a p q = cc
  get_elem?-level_up_single (x ∷ []) zero a p q = cc
  get_elem?-level_up_single (x ∷ []) (suc i) a p q = cc
  get_elem?-level_up_single (x ∷ y ∷ xs) zero a p q = cc
  get_elem?-level_up_single (x ∷ y ∷ xs) (suc i) a p q = get_elem?-level_up_single xs i a p q

  level_up-Extends : {xs ys : List H} → Extends xs ys → Extends (level_up xs) (level_up ys)
  unfolding level_up
  level_up-Extends (Extends.grown w) = Extends.grown (node w w)
  level_up-Extends (Extends.changed v w) = Extends.changed (node v v) (node w w)
  level_up-Extends (Extends.keep a (Extends.grown w)) = Extends.changed (node a a) (node a w)
  level_up-Extends (Extends.keep a (Extends.changed v w)) = Extends.changed (node a v) (node a w)
  level_up-Extends (Extends.keep a (Extends.keep b e)) =
      Extends.keep (node a b) (level_up-Extends e)

  -- All but the last node of each row stand in the tree before the extension too.
  pub row-Extends :
      (k i : ℕ) {xs ys : List H}
      → Extends xs ys
      → IsLevel k ys
      → suc i < length (row k ys)
      → IsLevel k xs × (i < length (row k xs)) × (get_elem? (row k ys) i ≡ get_elem? (row k xs) i)
  unfolding row
  row-Extends zero i e l h = (tt, omega (arith, length-Extends e), get_elem?-Extends i e h)
  row-Extends (suc k) i {xs} {ys} e l h =
      let (l', shorter, same) = row-Extends k i (level_up-Extends e) l.1 h in
      let two : 1 < length xs =
        omega (arith, length-row_le k (level_up ys), length-level_up ys, length-Extends e) in
      ((two, l'), shorter, same)

  -- A row that is not empty has a root above it, and enough fuel finds it.
  pub root_from-some :
      (fuel : ℕ) (xs : List H)
      → 0 < length xs
      → length xs ≤ suc fuel
      → (h : H) × (root_from fuel xs ≡ some h)
  unfolding root_from
  root_from-some fuel [] pos enough = absurd (omega arith)
  root_from-some zero (x ∷ []) pos enough = (x, refl)
  root_from-some (suc fuel) (x ∷ []) pos enough = (x, refl)
  root_from-some zero (x ∷ y ∷ xs) pos enough = absurd (omega arith)
  root_from-some (suc fuel) (x ∷ y ∷ xs) pos enough =
      let half = length-level_up (x ∷ y ∷ xs) in
      root_from-some fuel (level_up (x ∷ y ∷ xs)) (omega (arith, half))
        (omega (arith, half, enough))
