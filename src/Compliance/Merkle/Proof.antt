-- ===== src/Compliance/Merkle/Proof.antt =====
-- About `get_proof` of compliance/merkle.py.
use a2a_settlement.Base.{
  ℕ, zero, suc, ◌+◌, ◌-◌, ◌/◌, ◌%◌, ◌≤◌, ◌<◌, ◌≡◌, refl, sym, ap, ◌∙◌, true, false, some, List, [],
  ◌∷◌, map, arith, length, get_elem?, ltb, ◌==◌, Bool-cases, ==→eq, ==→ne, ltb→lt, ltb→le, lt→ltb,
  le→ltb, inl, inr,
}
use mathlib.Core.Path.{subst}
use a2a_settlement.Compliance.Merkle.{
  Nodes, Leaf, MerkleTree, Side, left, right, data_hashes, root_level, compute_root, root, sibling,
  side, proof_from, get_proof, hash_node, climb,
}
use a2a_settlement.Compliance.Merkle.Rows.{
  double, double_lem, get_elem?-length, get_elem?-some, level_up, root_from, length-level_up,
  get_elem?-level_up_pair, get_elem?-level_up_single,
}
use a2a_settlement.Compliance.Merkle.Stored.{Stored, Stored-row, Stored-up, root_level_lem}
use a2a_settlement.Compliance.Merkle.Append.{length-data_hashes, IsConsistent}
use Prim.Native.String.{String}

get_elem?-lt : {H : Type 0} (xs : List H) (i : ℕ) (h : H) → get_elem? xs i ≡ some h → i < length xs
get_elem?-lt [] i h at = cc
get_elem?-lt (x ∷ xs) zero h at = omega arith
get_elem?-lt (x ∷ xs) (suc i) h at = omega (arith, get_elem?-lt xs i h at)

pub get_elem?-data_hashes :
    (ls : List Leaf) (i : ℕ) (l : Leaf)
    → get_elem? ls i ≡ some l
    → get_elem? (map (λ (l : Leaf). l.data_hash) ls) i ≡ some (l.data_hash)
get_elem?-data_hashes [] i l at = cc
get_elem?-data_hashes (x ∷ ls) zero l at = cc
get_elem?-data_hashes (x ∷ ls) (suc i) l at = get_elem?-data_hashes ls i l at

positive : (n : ℕ) → 0 < n → (n == 0) ≡ false
positive n pos = ground arith

module _ (sha256 : List ℕ → String) (fromhex : String → List ℕ) where
  abbrev node : String → String → String
  node = hash_node sha256 fromhex

  climb-cons :
      (h s : String) (sd : Side) (rest : List (String × Side))
      → climb sha256 fromhex h ((s, sd) ∷ rest)
        ≡ climb sha256 fromhex (climb sha256 fromhex h ((s, sd) ∷ [])) rest
  unfolding climb
  climb-cons h s left rest = refl
  climb-cons h s right rest = refl

  -- The sibling that the code reads, and the parent that it leads to.
  sibling_lem :
      (level pos : ℕ) (ys : List String) (nodes : Nodes) (h : String)
      → Stored node level ys nodes
      → get_elem? ys pos ≡ some h
      → (s : String) × (sibling level pos (length ys) nodes ≡ some s)
        × (get_elem? (level_up node ys) (pos / 2)
            ≡ some (climb sha256 fromhex h ((s, side pos) ∷ [])))
  unfolding sibling climb
  sibling_lem level pos ys nodes h stored at =
      let q = pos / 2 in
      let lt = get_elem?-lt ys pos h at in
      let here = Stored-row node level ys nodes stored in
      elim (Bool-cases (pos % 2 == 0)) [
        | inl even ↦
            let e = ==→eq (pos % 2) 0 even in
            let mine : pos ≡ double q = omega (arith, e, double_lem q) in
            let next : pos + 1 ≡ suc (double q) = omega (arith, mine) in
            let at_q : get_elem? ys (double q) ≡ some h =
              subst (λ k. get_elem? ys k ≡ some h) mine at in
            elim (Bool-cases (ltb (pos + 1) (length ys))) [
              | inl inside ↦
                  let lt' = ltb→lt (pos + 1) (length ys) inside in
                  let (s, at_s) = get_elem?-some ys (suc (double q)) (omega (arith, next, lt')) in
                  (
                    s,
                    rw (even, inside)
                        (subst (λ k. nodes level k ≡ some s) (sym next)
                          (here (suc (double q)) (omega (arith, next, lt')) ∙ at_s)),
                    rw even (get_elem?-level_up_pair node ys q h s at_q at_s),
                  )
              | inr outside ↦
                  let le = ltb→le (pos + 1) (length ys) outside in
                  (
                    h,
                    rw (even, outside) (here pos lt ∙ at),
                    rw even (
                        get_elem?-level_up_single node ys q h at_q
                          (get_elem?-length ys (suc (double q)) (omega (arith, next, le)))),
                  )
            ]
        | inr odd ↦
            let ne = ==→ne (pos % 2) 0 odd in
            let mine : pos ≡ suc (double q) = omega (arith, ne, double_lem q) in
            let before : pos - 1 ≡ double q = omega (arith, mine) in
            let inside = lt→ltb (pos - 1) (length ys) (omega (arith, lt)) in
            let (s, at_s) = get_elem?-some ys (double q) (omega (arith, before, lt)) in
            let at_q : get_elem? ys (suc (double q)) ≡ some h =
              subst (λ k. get_elem? ys k ≡ some h) mine at in
            (
              s,
              rw (odd, inside)
                  (subst (λ k. nodes level k ≡ some s) (sym before)
                    (here (double q) (omega (arith, before, lt)) ∙ at_s)),
              rw odd (get_elem?-level_up_pair node ys q s h at_s at_q),
            )
      ]

  proof_from-step :
      (fuel level pos n : ℕ) (nodes : Nodes) (s : String) (rest : List (String × Side))
      → ltb 1 n ≡ true
      → sibling level pos n nodes ≡ some s
      → proof_from fuel (suc level) (pos / 2) ((n + 1) / 2) nodes ≡ some rest
      → proof_from (suc fuel) level pos n nodes ≡ some ((s, side pos) ∷ rest)
  unfolding proof_from
  proof_from-step fuel level pos n nodes s rest more at_s at_rest =
      rw (more, proof_from, at_s, at_rest) refl

  -- A row of one node is its own root, with an empty proof.
  proof_single :
      (fuel pos : ℕ) (ys : List String) (h : String)
      → length ys ≤ 1
      → get_elem? ys pos ≡ some h
      → root_from node fuel ys ≡ some h
  unfolding root_from
  proof_single fuel pos [] h one at = cc
  proof_single fuel zero (x ∷ []) h one at = at
  proof_single fuel (suc pos) (x ∷ []) h one at = cc
  proof_single fuel pos (x ∷ y ∷ ys) h one at = absurd (omega arith)

  root_from-up :
      (fuel : ℕ) (ys : List String)
      → 1 < length ys
      → root_from node (suc fuel) ys ≡ root_from node fuel (level_up node ys)
  unfolding root_from
  root_from-up fuel [] two = absurd (omega arith)
  root_from-up fuel (x ∷ []) two = absurd (omega arith)
  root_from-up fuel (x ∷ y ∷ ys) two = refl

  -- The loop of `get_proof` returns, and its proof leads from the node to the root of the rows.
  proof_from_lem :
      (fuel level pos : ℕ) (ys : List String) (nodes : Nodes) (h : String)
      → Stored node level ys nodes
      → length ys ≤ suc fuel
      → get_elem? ys pos ≡ some h
      → (proof : List (String × Side)) × (proof_from fuel level pos (length ys) nodes ≡ some proof)
        × (root_from node fuel ys ≡ some (climb sha256 fromhex h proof))
  unfolding proof_from climb
  proof_from_lem zero level pos ys nodes h stored enough at =
      ([], rw (le→ltb 1 (length ys) enough) refl, proof_single zero pos ys h enough at)
  proof_from_lem (suc fuel) level pos ys nodes h stored enough at =
      elim (Bool-cases (ltb 1 (length ys))) [
        | inr one ↦ (
          [],
          rw (one, proof_from) refl,
          proof_single (suc fuel) pos ys h (ltb→le 1 (length ys) one) at,
        )
        | inl more ↦
            let two = ltb→lt 1 (length ys) more in
            let half = length-level_up node ys in
            let (s, at_s, up) = sibling_lem level pos ys nodes h stored at in
            let (rest, found, top) =
              proof_from_lem fuel (suc level) (pos / 2) (level_up node ys) nodes
                (climb sha256 fromhex h ((s, side pos) ∷ []))
                (Stored-up node level ys nodes two stored) (omega (arith, half, enough, two)) up in
            (
              (s, side pos) ∷ rest,
              proof_from-step fuel level pos (length ys) nodes s rest more at_s (
                  subst (λ n. proof_from fuel (suc level) (pos / 2) n nodes ≡ some rest) half
                    found),
              root_from-up fuel ys two ∙ top ∙ ap some (sym (climb-cons h s (side pos) rest)),
            )
      ]

  get_proof-inside :
      (i : ℕ) (t : MerkleTree) (proof : List (String × Side))
      → i < length t.leaves
      → proof_from (length t.leaves) 0 i (length t.leaves) t.nodes ≡ some proof
      → get_proof i t ≡ some proof
  unfolding get_proof
  get_proof-inside i t proof lt found = rw (lt→ltb i (length t.leaves) lt, found) refl

  pub root-inside :
      (t : MerkleTree) (r : String)
      → 0 < length t.leaves
      → t.nodes (root_level (length t.leaves) 0 (length t.leaves)) 0 ≡ some r
      → root t ≡ some r
  unfolding root compute_root
  root-inside t r pos top = rw (positive (length t.leaves) pos, top) refl

  -- A stored leaf has a proof, and it leads to the root that the tree reports.
  pub proof_to_root :
      (i : ℕ) (h : String) (t : MerkleTree)
      → IsConsistent sha256 fromhex t
      → get_elem? (data_hashes t) i ≡ some h
      → (proof : List (String × Side)) × (get_proof i t ≡ some proof)
        × (root t ≡ some (climb sha256 fromhex h proof))
  proof_to_root i h t ok at =
      let n = length-data_hashes t.leaves in
      let lt : i < length t.leaves = omega (arith, get_elem?-lt (data_hashes t) i h at, n) in
      let (proof, found, top) =
        proof_from_lem (length t.leaves) 0 i (data_hashes t) t.nodes h ok (omega (arith, n)) at in
      let stored =
        root_level_lem node (length t.leaves) 0 (data_hashes t) t.nodes (omega (arith, n, lt))
          (omega (arith, n)) ok in
      (
        proof,
        get_proof-inside i t proof lt
            (subst (λ c. proof_from (length t.leaves) 0 i c t.nodes ≡ some proof) n found),
        root-inside t (climb sha256 fromhex h proof) (omega (arith, lt)) (
            subst
              (λ c.
                t.nodes (root_level (length t.leaves) 0 c) 0 ≡ some (climb sha256 fromhex h proof))
              n (stored ∙ top)),
      )
