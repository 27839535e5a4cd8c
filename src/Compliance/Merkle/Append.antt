-- ===== src/Compliance/Merkle/Append.antt =====
-- About `append` of compliance/merkle.py against the reference root.
use a2a_settlement.Base.{
  ℕ, suc, ◌+◌, ◌≡◌, ◌≢◌, refl, sym, ap, ◌∙◌, false, Option, some, List, [], ◌∷◌, ◌++◌, map, arith,
  length, get_elem?, ◌==◌, Bool-cases, ==→eq, ==→ne, inl, inr,
}
use mathlib.Core.Path.{subst}
use a2a_settlement.Compliance.Merkle.{
  Nodes, Leaf, MerkleTree, data_hashes, store_node, root_level, compute_root, hash_leaf, new_leaf,
  hash_node, rebuild_path, append,
}
use a2a_settlement.Compliance.Merkle.Rows.{
  Extends-append, length-append_one, get_elem?-append_last, get_elem?-Extends, root_from,
  merkle_root, length-row_le, row-Extends, root_from-some,
}
use a2a_settlement.Compliance.Merkle.Rebuild.{rebuild_path_lem}
use a2a_settlement.Compliance.Merkle.Stored.{
  store_node_lem, RowAt, Stored, InitStored, Stored-row, root_level_lem,
}
use Prim.Native.String.{String}

pub length-data_hashes : (ls : List Leaf) → length (map (λ (l : Leaf). l.data_hash) ls) ≡ length ls
length-data_hashes [] = refl
length-data_hashes (l ∷ ls) = omega (arith, length-data_hashes ls)

pub data_hashes-append :
    (ls : List Leaf) (l : Leaf)
    → map (λ (l : Leaf). l.data_hash) (ls ++ l ∷ [])
      ≡ map (λ (l : Leaf). l.data_hash) ls ++ l.data_hash ∷ []
data_hashes-append [] l = refl
data_hashes-append (x ∷ ls) l = ap (◌∷◌ x.data_hash) (data_hashes-append ls l)

nonzero : (n : ℕ) → (suc n == 0) ≡ false
nonzero n = ground arith

plus_one : (n : ℕ) → n + 1 ≡ suc n
plus_one n = omega arith

module _ (sha256 : List ℕ → String) (fromhex : String → List ℕ) where
  -- Every row of the tree over the leaves' hashes is stored at its level.
  abbrev pub IsConsistent : MerkleTree → Type 0
  IsConsistent t = Stored (hash_node sha256 fromhex) 0 (data_hashes t) t.nodes

  -- The reference: the root of the rows over a list of hashes.
  abbrev pub reference_root : List String → Option String
  reference_root = merkle_root (hash_node sha256 fromhex)

  module _ (t : MerkleTree) (h : String) (ok : IsConsistent t) where
    abbrev xs : List String
    xs = data_hashes t

    abbrev ys : List String
    ys = data_hashes t ++ h ∷ []

    abbrev nodes0 : Nodes
    nodes0 = store_node 0 (length t.leaves) h t.nodes

    leaf_row : RowAt 0 ys nodes0
    leaf_row i lt =
        let n = length-data_hashes t.leaves in
        let stored = store_node_lem 0 (length t.leaves) h t.nodes 0 i in
        elim (Bool-cases (i == length t.leaves)) [
          | inl here ↦
              let same = ==→eq i (length t.leaves) here in
              stored.0 refl same
              ∙ sym
                  (subst (λ k. get_elem? ys k ≡ some h) (n ∙ sym same) (get_elem?-append_last xs h))
          | inr there ↦
              let ne = ==→ne i (length t.leaves) there in
              let all = length-append_one xs h in
              stored.2 ne
              ∙ Stored-row (hash_node sha256 fromhex) 0 xs t.nodes ok i
                  (omega (arith, all, n, lt, ne))
              ∙ sym (get_elem?-Extends i (Extends-append xs h) (omega (arith, all, n, lt, ne)))
        ]

    other_rows : InitStored (hash_node sha256 fromhex) 0 ys nodes0
    other_rows k j i e l lt =
        let n = length-data_hashes t.leaves in
        let all = length-append_one xs h in
        let short = length-row_le (hash_node sha256 fromhex) k ys in
        let ne : i ≢ length t.leaves = omega (arith, all, n, lt, short) in
        let (l', lt', same) =
          row-Extends (hash_node sha256 fromhex) k i (Extends-append xs h) l lt in
        (store_node_lem 0 (length t.leaves) h t.nodes j i).2 ne ∙ ok k j i e l' lt' ∙ sym same

  -- The root that `_compute_root` reads off the stored rows.
  Stored-root :
      (n : ℕ) (hs : List String) (nodes' : Nodes)
      → length hs ≡ suc n
      → Stored (hash_node sha256 fromhex) 0 hs nodes'
      → (r : String) × (reference_root hs ≡ some r)
        × (nodes' (root_level (suc n) 0 (suc n)) 0 ≡ some r)
  unfolding merkle_root
  Stored-root n hs nodes' count stored =
      let (r, at_r) =
        root_from-some (hash_node sha256 fromhex) (suc n) hs (omega (arith, count))
          (omega (arith, count)) in
      (
        r,
        subst (λ c. root_from (hash_node sha256 fromhex) c hs ≡ some r) (sym count) at_r,
        subst (λ c. nodes' (root_level (suc n) 0 c) 0 ≡ some r) count
            (root_level_lem (hash_node sha256 fromhex) (suc n) 0 hs nodes' (omega (arith, count))
                (omega (arith, count)) stored
              ∙ at_r),
      )

  append-run :
      (content : List ℕ) (t : MerkleTree) (nodes' : Nodes) (r : String)
      → rebuild_path sha256 fromhex
          (suc (length t.leaves))
          0
          (length t.leaves)
          (suc (length t.leaves))
          (store_node 0 (length t.leaves) (hash_leaf sha256 fromhex content) t.nodes)
        ≡ some nodes'
      → nodes' (root_level (suc (length t.leaves)) 0 (suc (length t.leaves))) 0 ≡ some r
      → append sha256 fromhex content t
        ≡ some (
          record { leaves = t.leaves ++ new_leaf sha256 fromhex content ∷ []; nodes = nodes' },
          r,
          length t.leaves,
        )
  unfolding append
  append-run content t nodes' r run computed =
      rw (plus_one (length t.leaves), run, compute_root, nonzero (length t.leaves), computed) refl

  -- Appending to a tree whose rows are all stored returns the old count as the index, adds the leaf at
  -- the end, returns the root of the rows over the new leaves, and leaves every row stored.
  pub append_refines :
      (content : List ℕ) (t : MerkleTree)
      → IsConsistent t
      → (t' : MerkleTree) × (r : String) × (append sha256 fromhex content t
          ≡ some (t', r, length t.leaves))
        × (t'.leaves ≡ t.leaves ++ new_leaf sha256 fromhex content ∷ [])
        × (reference_root (data_hashes t') ≡ some r)
        × IsConsistent t'
  append_refines content t consistent =
      let h = hash_leaf sha256 fromhex content in
      let l = new_leaf sha256 fromhex content in
      let n = length-data_hashes t.leaves in
      let all = length-append_one (data_hashes t) h in
      let count : length (ys t h consistent) ≡ suc (length t.leaves) = omega (arith, all, n) in
      let (nodes', run, stored, _) =
        rebuild_path_lem sha256 fromhex (suc (length t.leaves)) 0 (length t.leaves)
          (ys t h consistent) (nodes0 t h consistent) (omega (arith, all, n))
          (omega (arith, all, n)) (leaf_row t h consistent) (other_rows t h consistent) in
      let (r, at_r, computed) =
        Stored-root (length t.leaves) (ys t h consistent) nodes' count stored in
      let hashes = data_hashes-append t.leaves l in
      (
        record { leaves = t.leaves ++ l ∷ []; nodes = nodes' },
        r,
        append-run content t nodes' r run computed,
        refl,
        subst (λ hs. reference_root hs ≡ some r) (sym hashes) at_r,
        subst (λ hs. Stored (hash_node sha256 fromhex) 0 hs nodes') (sym hashes) stored,
      )
