-- ===== src/Compliance/Merkle/History.antt =====
-- About the trees that appends make from an empty database, in compliance/merkle.py.
use a2a_settlement.Base.{
  ℕ, zero, suc, ◌<◌, ◌≡◌, refl, sym, ap, ◌∙◌, some, List, [], ◌∷◌, ◌++◌, map, arith, length,
}
use mathlib.Core.Path.{subst}
use a2a_settlement.Compliance.Merkle.{
  MerkleTree, data_hashes, empty_tree, root_level, root, new_leaf, hash_node, append, append_all,
}
use a2a_settlement.Compliance.Merkle.Rows.{row, merkle_root, root_from-some}
use a2a_settlement.Compliance.Merkle.Stored.{root_level_lem}
use a2a_settlement.Compliance.Merkle.Append.{
  length-data_hashes, IsConsistent, reference_root, append_refines,
}
use a2a_settlement.Compliance.Merkle.Proof.{root-inside}
use Prim.Native.String.{String}

append_nil : {A : Type 0} (xs : List A) → xs ++ [] ≡ xs
append_nil [] = refl
append_nil (x ∷ xs) = ap (◌∷◌ x) (append_nil xs)

append-assoc_one :
    {A : Type 0} (xs : List A) (y : A) (ys : List A) → (xs ++ y ∷ []) ++ ys ≡ xs ++ y ∷ ys
append-assoc_one [] y ys = refl
append-assoc_one (x ∷ xs) y ys = ap (◌∷◌ x) (append-assoc_one xs y ys)

module _ (sha256 : List ℕ → String) (fromhex : String → List ℕ) where
  pub empty_tree-IsConsistent : IsConsistent sha256 fromhex empty_tree
  unfolding row
  empty_tree-IsConsistent zero j i e l lt = absurd (omega (arith, lt))
  empty_tree-IsConsistent (suc k) j i e l lt = absurd (omega (arith, l.0))

  -- The root that a consistent tree with leaves reports.
  root-IsConsistent :
      (t : MerkleTree)
      → IsConsistent sha256 fromhex t
      → 0 < length t.leaves
      → root t ≡ reference_root sha256 fromhex (data_hashes t)
  unfolding merkle_root
  root-IsConsistent t ok pos =
      let n = length-data_hashes t.leaves in
      let hs = data_hashes t in
      let node = hash_node sha256 fromhex in
      let (r, at_r) = root_from-some node (length hs) hs (omega (arith, n, pos)) (omega arith) in
      let stored =
        root_level_lem node (length hs) 0 hs t.nodes (omega (arith, n, pos)) (omega arith) ok in
      root-inside sha256 fromhex t r pos
        (subst (λ c. t.nodes (root_level c 0 c) 0 ≡ some r) n (stored ∙ at_r))
      ∙ sym at_r

  append_all-run :
      (content : List ℕ) (contents : List (List ℕ)) (t t' : MerkleTree) (r : String) (i : ℕ)
      → append sha256 fromhex content t ≡ some (t', r, i)
      → append_all sha256 fromhex (content ∷ contents) t ≡ append_all sha256 fromhex contents t'
  unfolding append_all
  append_all-run content contents t t' r i run = rw (append_all, run) refl

  append_all_from :
      (contents : List (List ℕ)) (t : MerkleTree)
      → IsConsistent sha256 fromhex t
      → (t' : MerkleTree) × (append_all sha256 fromhex contents t ≡ some t')
        × (t'.leaves ≡ t.leaves ++ map (new_leaf sha256 fromhex) contents)
        × IsConsistent sha256 fromhex t'
  unfolding append_all
  append_all_from [] t ok = (t, refl, sym (append_nil t.leaves), ok)
  append_all_from (content ∷ contents) t ok =
      let (t1, r, run, ls, _, ok1) = append_refines sha256 fromhex content t ok in
      let (t2, runs, ls', ok2) = append_all_from contents t1 ok1 in
      (
        t2,
        append_all-run content contents t t1 r (length t.leaves) run ∙ runs,
        ls'
            ∙ ap (λ all. all ++ map (new_leaf sha256 fromhex) contents) ls
            ∙ append-assoc_one t.leaves (new_leaf sha256 fromhex content)
                (map (new_leaf sha256 fromhex) contents),
        ok2,
      )

  -- Appending payloads one after another, at least one, to an empty tree always returns; the
  -- leaves are the payloads under their hashes in order, the root that the tree reports is that
  -- of the rows built from scratch over the leaves' hashes, and every row is stored.
  pub append_all_refines :
      (content : List ℕ) (contents : List (List ℕ))
      → (t : MerkleTree) × (append_all sha256 fromhex (content ∷ contents) empty_tree ≡ some t)
        × (t.leaves ≡ map (new_leaf sha256 fromhex) (content ∷ contents))
        × (root t ≡ reference_root sha256 fromhex (data_hashes t))
        × IsConsistent sha256 fromhex t
  append_all_refines content contents =
      let (t, runs, ls, ok) =
        append_all_from (content ∷ contents) empty_tree empty_tree-IsConsistent in
      let some_leaves : 0 < length t.leaves = omega (arith, ap length ls) in
      (t, runs, ls, root-IsConsistent t ok some_leaves, ok)
