-- ===== src/Compliance/Merkle/Duplicate.antt =====
-- About `append` of compliance/merkle.py where a row has an odd last node.
use a2a_settlement.Base.{
  ℕ, zero, suc, ◌+◌, ◌≤◌, ◌≡◌, refl, sym, ap, ◌∙◌, some, List, [], ◌∷◌, ◌++◌, map, arith, length,
}
use mathlib.Core.Option.{some-injective}
use a2a_settlement.Compliance.Merkle.{
  MerkleTree, Leaf, data_hashes, new_leaf, hash_leaf, hash_node, append,
}
use a2a_settlement.Compliance.Merkle.Rows.{
  double, length-append_one, level_up, root_from, merkle_root, length-level_up,
}
use a2a_settlement.Compliance.Merkle.Append.{
  length-data_hashes, data_hashes-append, IsConsistent, reference_root, append_refines,
}
use Prim.Native.String.{String}

module _ {H : Type 0} (node : H → H → H) where
  -- Any two amounts of fuel that are enough find the same root.
  root_from-fuel :
      (f g : ℕ) (xs : List H)
      → length xs ≤ suc f
      → length xs ≤ suc g
      → root_from node f xs ≡ root_from node g xs
  unfolding root_from
  root_from-fuel f g [] a b = refl
  root_from-fuel f g (x ∷ []) a b = refl
  root_from-fuel zero g (x ∷ y ∷ xs) a b = absurd (omega arith)
  root_from-fuel (suc f) zero (x ∷ y ∷ xs) a b = absurd (omega arith)
  root_from-fuel (suc f) (suc g) (x ∷ y ∷ xs) a b =
      let half = length-level_up node (x ∷ y ∷ xs) in
      root_from-fuel f g (level_up node (x ∷ y ∷ xs)) (omega (arith, half, a))
        (omega (arith, half, b))

  level_up-twice :
      (k : ℕ) (xs : List H) (x : H)
      → length xs ≡ double k
      → level_up node ((xs ++ x ∷ []) ++ x ∷ []) ≡ level_up node (xs ++ x ∷ [])
  unfolding level_up
  level_up-twice zero [] x even = refl
  level_up-twice zero (y ∷ xs) x even = absurd (omega arith)
  level_up-twice (suc k) [] x even = absurd (omega arith)
  level_up-twice (suc k) (y ∷ []) x even = absurd (omega arith)
  level_up-twice (suc k) (y ∷ z ∷ xs) x even =
      ap (◌∷◌ (node y z)) (level_up-twice k xs x (omega (arith, even)))

  merkle_root-two :
      (x y : H) (xs : List H)
      → merkle_root node (x ∷ y ∷ xs)
        ≡ root_from node (suc (length xs)) (level_up node (x ∷ y ∷ xs))
  unfolding merkle_root root_from
  merkle_root-two x y xs = refl

  merkle_root-twice :
      (k : ℕ) (xs : List H) (x : H)
      → length xs ≡ double (suc k)
      → merkle_root node ((xs ++ x ∷ []) ++ x ∷ []) ≡ merkle_root node (xs ++ x ∷ [])
  merkle_root-twice k [] x even = absurd (omega arith)
  merkle_root-twice k (y ∷ []) x even = absurd (omega arith)
  merkle_root-twice k (y ∷ z ∷ xs) x even =
      let rest = xs ++ x ∷ [] in
      let more = length-append_one rest x in
      let half = length-level_up node (y ∷ z ∷ rest) in
      merkle_root-two y z (rest ++ x ∷ [])
      ∙ ap (root_from node (suc (length (rest ++ x ∷ []))))
          (level_up-twice (suc k) (y ∷ z ∷ xs) x even)
      ∙ root_from-fuel (suc (length (rest ++ x ∷ []))) (suc (length rest))
          (level_up node (y ∷ z ∷ rest)) (omega (arith, more, half)) (omega (arith, half))
      ∙ sym (merkle_root-two y z rest)

module _ (sha256 : List ℕ → String) (fromhex : String → List ℕ) where
  -- On a consistent tree with an even number of leaves, two at least, appending one payload
  -- twice returns the same root both times, for two trees of different sizes.
  pub append_twice :
      (k : ℕ) (content : List ℕ) (t : MerkleTree)
      → IsConsistent sha256 fromhex t
      → length t.leaves ≡ double (suc k)
      → (once : MerkleTree) × (twice : MerkleTree) × (r : String) × (append sha256 fromhex content t
          ≡ some (once, r, length t.leaves))
        × (append sha256 fromhex content once ≡ some (twice, r, length once.leaves))
        × (length twice.leaves ≡ length t.leaves + 2)
  append_twice k content t ok even =
      let h = hash_leaf sha256 fromhex content in
      let l = new_leaf sha256 fromhex content in
      let (once, r, run, ls, top, ok') = append_refines sha256 fromhex content t ok in
      let (twice, r', run', ls', top', _) = append_refines sha256 fromhex content once ok' in
      let hashes : data_hashes once ≡ data_hashes t ++ h ∷ [] =
        ap (map (λ (l : Leaf). l.data_hash)) ls ∙ data_hashes-append t.leaves l in
      let hashes' : data_hashes twice ≡ data_hashes once ++ h ∷ [] =
        ap (map (λ (l : Leaf). l.data_hash)) ls' ∙ data_hashes-append once.leaves l in
      let all : data_hashes twice ≡ (data_hashes t ++ h ∷ []) ++ h ∷ [] =
        hashes' ∙ ap (λ hs. hs ++ h ∷ []) hashes in
      let n = length-data_hashes t.leaves in
      let same : r' ≡ r = some-injective r' r (
        sym top'
        ∙ ap (reference_root sha256 fromhex) all
        ∙ merkle_root-twice (hash_node sha256 fromhex) k (data_hashes t) h (n ∙ even)
        ∙ ap (reference_root sha256 fromhex) (sym hashes)
        ∙ top) in
      (
        once,
        twice,
        r,
        run,
        run' ∙ ap (λ q. some (twice, q, length once.leaves)) same,
        omega (
          arith,
          length-data_hashes twice.leaves,
          ap length all,
          length-append_one (data_hashes t ++ h ∷ []) h,
          length-append_one (data_hashes t) h,
          n,
        ),
      )
