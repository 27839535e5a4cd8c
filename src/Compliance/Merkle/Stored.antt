-- ===== src/Compliance/Merkle/Stored.antt =====
-- About the nodes that compliance/merkle.py stores, row by row.
use a2a_settlement.Base.{
  ℕ, zero, suc, ◌+◌, ◌/◌, ◌≤◌, ◌<◌, ◌≡◌, ◌≢◌, refl, sym, ◌∙◌, true, some, List, [], ◌∷◌, arith,
  length, get_elem?, ltb, ◌==◌, Bool-cases, ==→eq, ==→ne, inl, inr,
}
use mathlib.Core.Path.{subst}
use a2a_settlement.Compliance.Merkle.{Nodes, store_node, root_level}
use a2a_settlement.Compliance.Merkle.Rows.{level_up, row, IsLevel, root_from, length-level_up}
use Prim.Native.String.{String}

-- A node stored at its place is found there, and nowhere else is anything changed.
pub store_node_lem :
    (level position : ℕ) (h : String) (nodes : Nodes) (k i : ℕ)
    → (k ≡ level → i ≡ position → store_node level position h nodes k i ≡ some h)
      × (k ≢ level → store_node level position h nodes k i ≡ nodes k i)
      × (i ≢ position → store_node level position h nodes k i ≡ nodes k i)
unfolding store_node
store_node_lem level position h nodes k i =
    (λ p q. ground arith, λ p. ground arith, λ p. ground arith)

-- The nodes of one row stand at one level.
abbrev pub RowAt : ℕ → List String → Nodes → Type 0
RowAt level ys nodes = (i : ℕ) → i < length ys → nodes level i ≡ get_elem? ys i

module _ (node : String → String → String) where
  -- The rows above `ys`, which stands at `level`, are stored.
  abbrev pub Stored : ℕ → List String → Nodes → Type 0
  Stored level ys nodes =
      (k j i : ℕ)
      → j ≡ level + k
      → IsLevel node k ys
      → i < length (row node k ys)
      → nodes j i ≡ get_elem? (row node k ys) i

  -- The same but for the last node of each row.
  abbrev pub InitStored : ℕ → List String → Nodes → Type 0
  InitStored level ys nodes =
      (k j i : ℕ)
      → j ≡ level + k
      → IsLevel node k ys
      → suc i < length (row node k ys)
      → nodes j i ≡ get_elem? (row node k ys) i

  pub Stored-row :
      (level : ℕ) (ys : List String) (nodes : Nodes) → Stored level ys nodes → RowAt level ys nodes
  unfolding row
  Stored-row level ys nodes h i lt = h zero level i (omega arith) tt lt

  pub Stored-up :
      (level : ℕ) (ys : List String) (nodes : Nodes)
      → 1 < length ys
      → Stored level ys nodes
      → Stored (suc level) (level_up node ys) nodes
  unfolding row
  Stored-up level ys nodes two h k j i e l lt = h (suc k) j i (omega arith) (two, l) lt

  -- The loop of `_compute_root` comes to the root of the stored rows.
  pub root_level_lem :
      (fuel level : ℕ) (ys : List String) (nodes : Nodes)
      → 0 < length ys
      → length ys ≤ suc fuel
      → Stored level ys nodes
      → nodes (root_level fuel level (length ys)) 0 ≡ root_from node fuel ys
  unfolding root_level root_from
  root_level_lem fuel level [] nodes pos enough h = absurd (omega arith)
  root_level_lem zero level (x ∷ []) nodes pos enough h =
      Stored-row level (x ∷ []) nodes h 0 (omega arith)
  root_level_lem (suc fuel) level (x ∷ []) nodes pos enough h =
      Stored-row level (x ∷ []) nodes h 0 (omega arith)
  root_level_lem zero level (x ∷ y ∷ ys) nodes pos enough h = absurd (omega arith)
  root_level_lem (suc fuel) level (x ∷ y ∷ ys) nodes pos enough h =
      let two : ltb 1 (length (x ∷ y ∷ ys)) ≡ true = ground arith in
      let half = length-level_up node (x ∷ y ∷ ys) in
      let ih =
        root_level_lem fuel (suc level) (level_up node (x ∷ y ∷ ys)) nodes (omega (arith, half))
          (omega (arith, half, enough)) (Stored-up level (x ∷ y ∷ ys) nodes (omega arith) h) in
      rw (two, root_level)
        (subst
          (λ n.
            nodes (root_level fuel (suc level) n) 0
            ≡ root_from node fuel (level_up node (x ∷ y ∷ ys)))
          half ih)

  -- The tree with one more row below it: a parent for the last pair of that row.
  pub next_row :
      (level last : ℕ) (ys : List String) (nodes : Nodes) (h : String)
      → length ys ≡ suc last
      → 1 < length ys
      → InitStored level ys nodes
      → get_elem? (level_up node ys) (last / 2) ≡ some h
      → RowAt (suc level) (level_up node ys) (store_node (suc level) (last / 2) h nodes)
  unfolding row
  next_row level last ys nodes h len two init parent i lt =
      let stored = store_node_lem (suc level) (last / 2) h nodes (suc level) i in
      elim (Bool-cases (i == last / 2)) [
        | inl here ↦ let same = ==→eq i (last / 2) here in stored.0 refl same ∙ sym (rw same parent)
        | inr there ↦
            let ne = ==→ne i (last / 2) there in
            let below : suc i < length (level_up node ys) =
              omega (arith, length-level_up node ys, len, lt, ne) in
            stored.2 ne ∙ init 1 (suc level) i (omega arith) (two, tt) below
      ]

  pub next_init :
      (level last : ℕ) (ys : List String) (nodes : Nodes) (h : String)
      → length ys ≡ suc last
      → 1 < length ys
      → InitStored level ys nodes
      → InitStored (suc level) (level_up node ys) (store_node (suc level) (last / 2) h nodes)
  unfolding row
  next_init level last ys nodes h len two init zero j i e l lt =
      let ne : i ≢ last / 2 = omega (arith, length-level_up node ys, len, lt) in
      (store_node_lem (suc level) (last / 2) h nodes j i).2 ne
      ∙ init 1 j i (omega arith) (two, tt) lt
  next_init level last ys nodes h len two init (suc k) j i e l lt =
      let ne : j ≢ suc level = omega arith in
      (store_node_lem (suc level) (last / 2) h nodes j i).1 ne
      ∙ init (suc (suc k)) j i (omega arith) (two, l) lt

  -- A row of one node is the whole tree.
  pub Stored-single :
      (level : ℕ) (ys : List String) (nodes : Nodes)
      → length ys ≤ 1
      → RowAt level ys nodes
      → Stored level ys nodes
  unfolding row
  Stored-single level ys nodes one stored zero j i e l lt =
      let same : j ≡ level = omega (arith, e) in rw same (stored i lt)
  Stored-single level ys nodes one stored (suc k) j i e l lt = absurd (omega (arith, one, l.0))

  -- A row, and the rows above its parents' row.
  pub Stored-down :
      (level : ℕ) (ys : List String) (nodes : Nodes)
      → RowAt level ys nodes
      → Stored (suc level) (level_up node ys) nodes
      → Stored level ys nodes
  unfolding row
  Stored-down level ys nodes stored above zero j i e l lt =
      let same : j ≡ level = omega (arith, e) in rw same (stored i lt)
  Stored-down level ys nodes stored above (suc k) j i e l lt = above k j i (omega (arith, e)) l.1 lt
