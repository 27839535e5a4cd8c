-- ===== src/Compliance/Merkle/Verify.antt =====
-- About `verify` and `get_leaf` of compliance/merkle.py.
use a2a_settlement.Base.{
  ℕ, ◌≡◌, ◌≢◌, refl, ap, ◌∙◌, true, false, none, some, List, get_elem?, Bool-cases, Option-cases,
  inl, inr,
}
use a2a_settlement.Compliance.Merkle.{
  Leaf, MerkleTree, Side, data_hashes, root, get_proof, climb, verify, get_leaf,
}
use a2a_settlement.Compliance.Merkle.Append.{IsConsistent}
use text.Mathlib.Text.{◌==◌ as str_eq}
use text.Mathlib.TextEquality.{eq_iff}
use text.Mathlib.TextPositions.{eq_refl}
use Prim.Native.String.{String}
use a2a_settlement.Compliance.Merkle.Proof.{get_elem?-data_hashes, proof_to_root}

module _ (sha256 : List ℕ → String) (fromhex : String → List ℕ) where
  verify-none :
      (i : ℕ) (h : String) (t : MerkleTree)
      → get_elem? (data_hashes t) i ≡ none
      → verify sha256 fromhex i h t ≡ some false
  unfolding verify
  verify-none i h t out = rw (verify, out) refl

  verify-other :
      (i : ℕ) (h h' : String) (t : MerkleTree)
      → get_elem? (data_hashes t) i ≡ some h'
      → str_eq h' h ≡ false
      → verify sha256 fromhex i h t ≡ some false
  unfolding verify
  verify-other i h h' t at ne = rw (verify, at, ne) refl

  verify-same :
      (i : ℕ) (h : String) (t : MerkleTree) (proof : List (String × Side))
      → get_elem? (data_hashes t) i ≡ some h
      → get_proof i t ≡ some proof
      → root t ≡ some (climb sha256 fromhex h proof)
      → verify sha256 fromhex i h t ≡ some true
  unfolding verify
  verify-same i h t proof at found top =
      rw (verify, at, eq_refl h, found, top, eq_refl (climb sha256 fromhex h proof)) refl

  -- On a tree whose rows are all stored, verify returns for every index and hash: true if the
  -- hash is that of the leaf at the index, since the generated proof leads to the root, and
  -- false otherwise, also out of range.
  pub verify_exactly :
      (i : ℕ) (h : String) (t : MerkleTree)
      → IsConsistent sha256 fromhex t
      → (get_elem? (data_hashes t) i ≡ some h → verify sha256 fromhex i h t ≡ some true)
        × (get_elem? (data_hashes t) i ≢ some h → verify sha256 fromhex i h t ≡ some false)
  verify_exactly i h t ok = (
    λ at.
        let (proof, found, top) = proof_to_root sha256 fromhex i h t ok at in
        verify-same i h t proof at found top,
    λ not_at. elim (Option-cases (get_elem? (data_hashes t) i)) [
      | inl out ↦ verify-none i h t out
      | inr (h', at) ↦ elim (Bool-cases (str_eq h' h)) [
        | inr ne ↦ verify-other i h h' t at ne
        | inl same ↦ absurd (not_at (at ∙ ap some ((eq_iff h' h).0 same)))
      ]
    ],
  )

  -- A leaf of a tree whose rows are all stored is returned with a proof that leads to the root.
  pub get_leaf_proves :
      (i : ℕ) (l : Leaf) (t : MerkleTree)
      → IsConsistent sha256 fromhex t
      → get_elem? t.leaves i ≡ some l
      → (proof : List (String × Side)) × (get_leaf i t
          ≡ some (
              some (record {
                leaf_index = i;
                data_hash = l.data_hash;
                payload = l.payload;
                proof = proof;
              })))
        × (root t ≡ some (climb sha256 fromhex l.data_hash proof))
  unfolding get_leaf
  get_leaf_proves i l t ok at =
      let (proof, found, top) =
        proof_to_root sha256 fromhex i l.data_hash t ok (get_elem?-data_hashes t.leaves i l at) in
      (proof, rw (get_leaf, at, found) refl, top)
