-- ===== src/Compliance/Merkle/Rebuild.antt =====
-- About `_rebuild_path` of compliance/merkle.py.
use a2a_settlement.Base.{
  ℕ, zero, suc, ◌+◌, ◌*◌, ◌/◌, ◌≤◌, ◌<◌, ◌≡◌, refl, ap, ◌∙◌, true, Option, some, List, arith,
  length, get_elem?, ltb, Bool-cases, ltb→lt, ltb→le, le→ltb, inl, inr, if◌then◌else◌,
}
use a2a_settlement.Compliance.Merkle.{Nodes, store_node, hash_node, rebuild_path}
use a2a_settlement.Compliance.Merkle.Rows.{
  double, double_lem, get_elem?-length, get_elem?-some, level_up, row, length-level_up,
  get_elem?-level_up_pair, get_elem?-level_up_single,
}
use Prim.Native.String.{String}
use a2a_settlement.Compliance.Merkle.Stored.{
  store_node_lem, RowAt, Stored, InitStored, next_row, next_init, Stored-single, Stored-down,
}

module _ (sha256 : List ℕ → String) (fromhex : String → List ℕ) where
  abbrev pub node : String → String → String
  node = hash_node sha256 fromhex

  -- What the loop of `_rebuild_path` returns: every row stored, and nothing written at or below the
  -- row that it starts from.
  abbrev pub Rebuilt : ℕ → List String → Nodes → Option Nodes → Type 0
  Rebuilt level ys nodes result =
      (nodes' : Nodes) × (result ≡ some nodes')
      × Stored node level ys nodes'
      × ((j i : ℕ) → j ≤ level → nodes' j i ≡ nodes j i)

  -- The last pair's parent, as the loop reads it.
  parent_of :
      (level last : ℕ) (ys : List String) (nodes : Nodes)
      → length ys ≡ suc last
      → RowAt level ys nodes
      → (l : String) × (r : String) × (nodes level (last / 2 * 2) ≡ some l)
        × ((if ltb (last / 2 * 2 + 1) (suc last) then nodes level (last / 2 * 2 + 1) else some l)
            ≡ some r)
        × (get_elem? (level_up node ys) (last / 2) ≡ some (node l r))
  parent_of level last ys nodes len stored =
      let q = last / 2 in
      let twice : q * 2 ≡ double q = omega (arith, double_lem q) in
      let odd : q * 2 + 1 ≡ suc (double q) = omega (arith, double_lem q) in
      let (l, at_l) = get_elem?-some ys (double q) (omega (arith, double_lem q, len)) in
      let stored_l : nodes level (q * 2) ≡ some l =
        rw twice (stored (double q) (omega (arith, double_lem q, len)) ∙ at_l) in
      elim (Bool-cases (ltb (q * 2 + 1) (suc last))) [
        | inl pair ↦
            let lt = ltb→lt (q * 2 + 1) (suc last) pair in
            let (r, at_r) = get_elem?-some ys (suc (double q)) (omega (arith, odd, len, lt)) in
            (
              l,
              r,
              stored_l,
              rw (pair, odd) (stored (suc (double q)) (omega (arith, odd, len, lt)) ∙ at_r),
              get_elem?-level_up_pair node ys q l r at_l at_r,
            )
        | inr single ↦
            let le = ltb→le (q * 2 + 1) (suc last) single in
            (
              l,
              l,
              stored_l,
              rw single refl,
              get_elem?-level_up_single node ys q l at_l
                  (get_elem?-length ys (suc (double q)) (omega (arith, odd, len, le))),
            )
      ]

  rebuild_path-step :
      (fuel level pos n : ℕ) (nodes : Nodes) (l r : String)
      → ltb 1 n ≡ true
      → nodes level (pos / 2 * 2) ≡ some l
      → (if ltb (pos / 2 * 2 + 1) n then nodes level (pos / 2 * 2 + 1) else some l) ≡ some r
      → rebuild_path sha256 fromhex (suc fuel) level pos n nodes
        ≡ rebuild_path sha256 fromhex fuel
            (suc level)
            (pos / 2)
            ((n + 1) / 2)
            (store_node (suc level) (pos / 2) (node l r) nodes)
  unfolding rebuild_path
  rebuild_path-step fuel level pos n nodes l r more at_l at_r =
      rw (more, rebuild_path, at_l, at_r) refl

  pub rebuild_path_lem :
      (fuel level last : ℕ) (ys : List String) (nodes : Nodes)
      → length ys ≡ suc last
      → length ys ≤ suc fuel
      → RowAt level ys nodes
      → InitStored node level ys nodes
      → Rebuilt level ys nodes (rebuild_path sha256 fromhex fuel level last (suc last) nodes)
  unfolding rebuild_path row
  rebuild_path_lem zero level last ys nodes len enough stored init =
      let one = le→ltb 1 (suc last) (omega (arith, len, enough)) in
      (
        nodes,
        rw (one, rebuild_path) refl,
        Stored-single node level ys nodes enough stored,
        λ j i le. refl,
      )
  rebuild_path_lem (suc fuel) level last ys nodes len enough stored init =
      elim (Bool-cases (ltb 1 (suc last))) [
        | inr one ↦
            let le = ltb→le 1 (suc last) one in
            (
              nodes,
              rw (one, rebuild_path) refl,
              Stored-single node level ys nodes (omega (arith, le, len)) stored,
              λ j i le'. refl,
            )
        | inl more ↦
            let two : 1 < length ys = omega (arith, ltb→lt 1 (suc last) more, len) in
            let (l, r, at_l, at_r, parent) = parent_of level last ys nodes len stored in
            let nodes1 = store_node (suc level) (last / 2) (node l r) nodes in
            let half : length (level_up node ys) ≡ suc (last / 2) =
              omega (arith, length-level_up node ys, len) in
            let fewer : (suc last + 1) / 2 ≡ suc (last / 2) = omega arith in
            let (nodes', run, above, frame) =
              rebuild_path_lem fuel (suc level) (last / 2) (level_up node ys) nodes1 half
                (omega (arith, half, len, enough, two))
                (next_row node level last ys nodes (node l r) len two init parent)
                (next_init node level last ys nodes (node l r) len two init) in
            let kept : (j i : ℕ) → j ≤ level → nodes' j i ≡ nodes j i = λ j i le.
              frame j i (omega (arith, le))
              ∙ (store_node_lem (suc level) (last / 2) (node l r) nodes j i).1
                  (omega (arith, le)) in
            (
              nodes',
              rebuild_path-step fuel level last (suc last) nodes l r more at_l at_r
                  ∙ ap (λ n. rebuild_path sha256 fromhex fuel (suc level) (last / 2) n nodes1) fewer
                  ∙ run,
              Stored-down node level ys nodes' (λ i lt. kept level i (omega arith) ∙ stored i lt)
                  above,
              kept,
            )
      ]
