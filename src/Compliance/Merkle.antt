-- ===== src/Compliance/Merkle.antt =====
-- `MerkleTree` of compliance/merkle.py. The two SQLite tables are a list of leaf rows, in the order
-- of their positions, and the nodes as a function of level and position. `none` is an exception:
-- `IndexError` of `get_proof`, or `ValueError` of `_get_node`.
pub mod Rows
pub mod Stored
pub mod Rebuild
pub mod Append
pub mod Proof
pub mod Verify
pub mod Duplicate
pub mod History
use a2a_settlement.Base.{
  ℕ, zero, suc, ◌+◌, ◌-◌, ◌*◌, ◌/◌, ◌%◌, Bool, true, false, Option, none, some, List, [], ◌∷◌, ◌++◌,
  map, length, get_elem?, ltb, ◌==◌, ◌&&◌, if◌then◌else◌,
}
use Prim.Native.String.{String}
use text.Mathlib.Text.{◌==◌ as str_eq}

pub record Leaf : Type 0 where
  pub data_hash : String
  pub payload : List ℕ

abbrev pub Nodes : Type 0
Nodes = ℕ → ℕ → Option String

pub record MerkleTree : Type 0 where
  pub leaves : List Leaf
  pub nodes : Nodes

pub data Side : Type 0 where
  left right : Side

abbrev pub data_hashes : MerkleTree → List String
data_hashes t = map (λ l. l.data_hash) t.leaves

-- A new database file.
abbrev pub empty_tree : MerkleTree
empty_tree = record { leaves = []; nodes = λ level position. none }

-- EMPTY_ROOT
abbrev pub empty_root : String
empty_root = "0000000000000000000000000000000000000000000000000000000000000000"

infixl 5 ◌>>=◌
abbrev pub ◌>>=◌ : {A B : Type 0} → Option A → (A → Option B) → Option B
none >>= f = none
some a >>= f = f a

unfoldable pub store_node : ℕ → ℕ → String → Nodes → Nodes
store_node level position h nodes k i = if k == level && i == position then some h else nodes k i

-- The level of the root, `while n > 1` of `_compute_root`.
unfoldable pub root_level : ℕ → ℕ → ℕ → ℕ
root_level zero level n = level
root_level (suc fuel) level n = elim (ltb 1 n) [
  | true ↦ root_level fuel (suc level) ((n + 1) / 2)
  | false ↦ level
]

unfoldable pub compute_root : ℕ → Nodes → Option String
unfolding root_level
compute_root count nodes =
    if count == 0 then some empty_root else nodes (root_level count 0 count) 0

unfoldable pub root : MerkleTree → Option String
unfolding compute_root
root t = compute_root (length t.leaves) t.nodes

-- The sibling of a node of a row of `n` nodes: the node itself where the row ends.
unfoldable pub sibling : ℕ → ℕ → ℕ → Nodes → Option String
sibling level pos n nodes =
    let sibling_pos = if pos % 2 == 0 then pos + 1 else pos - 1 in
    if ltb sibling_pos n then nodes level sibling_pos else nodes level pos

abbrev pub side : ℕ → Side
side pos = if pos % 2 == 0 then right else left

-- The loop of `get_proof`.
unfoldable pub proof_from : ℕ → ℕ → ℕ → ℕ → Nodes → Option (List (String × Side))
unfolding sibling
proof_from zero level pos n nodes = if ltb 1 n then none else some []
proof_from (suc fuel) level pos n nodes = elim (ltb 1 n) [
  | false ↦ some []
  | true ↦ do
    h ← sibling level pos n nodes
    rest ← proof_from fuel (suc level) (pos / 2) ((n + 1) / 2) nodes
    some ((h, side pos) ∷ rest)
]

unfoldable pub get_proof : ℕ → MerkleTree → Option (List (String × Side))
unfolding proof_from
get_proof leaf_index t =
    let count = length t.leaves in
    if ltb leaf_index count then proof_from count 0 leaf_index count t.nodes else none

pub record LeafView : Type 0 where
  pub leaf_index : ℕ
  pub data_hash : String
  pub payload : List ℕ
  pub proof : List (String × Side)

-- The outer `none` is an exception of `get_proof`, the inner one the source's `None`.
unfoldable pub get_leaf : ℕ → MerkleTree → Option (Option LeafView)
unfolding get_proof
get_leaf leaf_index t = elim (get_elem? t.leaves leaf_index) [
  | none ↦ some none
  | some l ↦ do
    proof ← get_proof leaf_index t
    some (
        some (record {
          leaf_index = leaf_index;
          data_hash = l.data_hash;
          payload = l.payload;
          proof = proof;
        }))
]

module _ (sha256 : List ℕ → String) (fromhex : String → List ℕ) where
  unfoldable pub hash_leaf : List ℕ → String
  hash_leaf content = sha256 (0 ∷ content)

  abbrev pub new_leaf : List ℕ → Leaf
  new_leaf content = record { data_hash = hash_leaf content; payload = content }

  unfoldable pub hash_node : String → String → String
  hash_node l r = sha256 (1 ∷ (fromhex l ++ fromhex r))

  -- `_rebuild_path`
  unfoldable pub rebuild_path : ℕ → ℕ → ℕ → ℕ → Nodes → Option Nodes
  unfolding hash_node store_node
  rebuild_path zero level pos n nodes = if ltb 1 n then none else some nodes
  rebuild_path (suc fuel) level pos n nodes = elim (ltb 1 n) [
    | false ↦ some nodes
    | true ↦ do
      left_hash ← nodes level (pos / 2 * 2)
      right_hash ← if ltb (pos / 2 * 2 + 1) n then nodes level (pos / 2 * 2 + 1) else some left_hash
      rebuild_path fuel (suc level) (pos / 2) ((n + 1) / 2)
          (store_node (suc level) (pos / 2) (hash_node left_hash right_hash) nodes)
  ]

  -- The new tree, its root and the new leaf's index.
  unfoldable pub append : List ℕ → MerkleTree → Option (MerkleTree × String × ℕ)
  unfolding hash_leaf store_node rebuild_path compute_root
  append content t = do
    let leaf_hash = hash_leaf content
    let position = length t.leaves
    nodes ←
        rebuild_path (position + 1) 0 position (position + 1)
          (store_node 0 position leaf_hash t.nodes)
    new_root ← compute_root (position + 1) nodes
    some (record { leaves = t.leaves ++ new_leaf content ∷ []; nodes = nodes }, new_root, position)

  -- The hash that a proof leads to.
  unfoldable pub climb : String → List (String × Side) → String
  unfolding hash_node
  climb computed [] = computed
  climb computed ((h, left) ∷ rest) = climb (hash_node h computed) rest
  climb computed ((h, right) ∷ rest) = climb (hash_node computed h) rest

  unfoldable pub verify : ℕ → String → MerkleTree → Option Bool
  unfolding get_proof climb root
  verify leaf_index data_hash t = elim (get_elem? (data_hashes t) leaf_index) [
    | none ↦ some false
    | some h ↦ elim (str_eq h data_hash) [
      | false ↦ some false
      | true ↦ do
        proof ← get_proof leaf_index t
        top ← root t
        some (str_eq (climb data_hash proof) top)
    ]
  ]

  -- One append after another.
  unfoldable pub append_all : List (List ℕ) → MerkleTree → Option MerkleTree
  append_all [] t = some t
  append_all (content ∷ contents) t = do (t', _, _) ← append content t; append_all contents t'
