-- ===== src/Tests/Merkle.antt =====
-- Examples for compliance/merkle.py, with a digest that writes out the bytes that it is given.
use a2a_settlement.Base.{
  ℕ, zero, suc, ◌+◌, ◌≡◌, ◌≢◌, ap, some, true, false, List, [], ◌∷◌, map, length, get_elem?,
}
use a2a_settlement.Compliance.Merkle.{
  MerkleTree, Leaf, data_hashes, empty_tree, root, hash_leaf, new_leaf, append, append_all, verify,
}
use a2a_settlement.Compliance.Merkle.Append.{IsConsistent, reference_root}
use a2a_settlement.Compliance.Merkle.Verify.{verify_exactly}
use a2a_settlement.Compliance.Merkle.Duplicate.{append_twice}
use a2a_settlement.Compliance.Merkle.History.{append_all_refines}
use Prim.Native.String.{String, len, ◌++◌ as concat}

abbrev digest : List ℕ → String
digest [] = ""
digest (zero ∷ bytes) = concat "o" (digest bytes)
digest (suc n ∷ bytes) = concat "i" (digest (n ∷ bytes))

abbrev from_hex : String → List ℕ
from_hex s = len s ∷ []

append_all_refines_example :
    (t : MerkleTree) × (append_all digest from_hex ((1 ∷ []) ∷ (2 ∷ []) ∷ []) empty_tree ≡ some t)
    × (t.leaves ≡ map (new_leaf digest from_hex) ((1 ∷ []) ∷ (2 ∷ []) ∷ []))
    × (root t ≡ reference_root digest from_hex (data_hashes t))
    × IsConsistent digest from_hex t
append_all_refines_example = append_all_refines digest from_hex (1 ∷ []) ((2 ∷ []) ∷ [])

two_leaves :
    (t : MerkleTree) × (t.leaves ≡ map (new_leaf digest from_hex) ((1 ∷ []) ∷ (2 ∷ []) ∷ []))
    × IsConsistent digest from_hex t
two_leaves =
    let (t, _, ls, _, ok) = append_all_refines digest from_hex (1 ∷ []) ((2 ∷ []) ∷ []) in
    (t, ls, ok)

abbrev pair : MerkleTree
pair = two_leaves.0

verify_exactly_example :
    (get_elem? (data_hashes pair) 1 ≡ some "oiio"
      → verify digest from_hex 1 "oiio" pair ≡ some true)
    × (get_elem? (data_hashes pair) 1 ≢ some "oiio"
        → verify digest from_hex 1 "oiio" pair ≡ some false)
verify_exactly_example = verify_exactly digest from_hex 1 "oiio" pair two_leaves.2

-- Both cases of it, each with its condition.
verify-true : verify digest from_hex 1 "oiio" pair ≡ some true
unfolding hash_leaf
verify-true =
    (verify_exactly digest from_hex 1 "oiio" pair two_leaves.2).0
      (ap (λ ls. get_elem? (map (λ (l : Leaf). l.data_hash) ls) 1) two_leaves.1)

append_twice_example :
    (once : MerkleTree) × (twice : MerkleTree) × (r : String) × (append digest from_hex
        (3 ∷ [])
        pair
      ≡ some (once, r, length pair.leaves))
    × (append digest from_hex (3 ∷ []) once ≡ some (twice, r, length once.leaves))
    × (length twice.leaves ≡ length pair.leaves + 2)
append_twice_example =
    append_twice digest from_hex 0 (3 ∷ []) pair two_leaves.2 (ap length two_leaves.1)
