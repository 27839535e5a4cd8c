-- ===== src/Shim/Gate.antt =====
-- `EscrowGate` of shim/escrow_gate.py and the cost models of shim/cost_model.py. Escrow ids are
-- texts that are only compared, so they are numbers; `hostname` is `urlparse(url).hostname or ""`,
-- and `to_float` is `float` of an integer.
pub mod Funded
use a2a_settlement.Base.{
  ℕ, ◌-◌, leb, ◌&&◌, Bool, true, false, not, Option, none, some, List, [], ◌∷◌, ◌==◌, if◌then◌else◌,
}
use a2a_settlement.Int.{ℤ}
use a2a_settlement.Table.{Table, find, modify}
use a2a_settlement.Exchange.Config.{Floats}
use Prim.Native.String.{String, len, slice, ◌++◌ as concat}
use text.Mathlib.Text.{◌==◌ as str_eq}

-- EscrowStatus of shim/escrow_gate.py
pub record GateEscrow (R : Type 0) : Type 0 where
  pub status : String
  pub amount : ℤ
  pub remaining : R

pub data CostModel (R : Type 0) : Type 0 where
  flat_fee : R → CostModel R
  per_destination : R → List (String × R) → CostModel R

pub data GateError (R : Type 0) : Type 0 where
  escrow_not_found : GateError R
  insufficient_escrow : R → R → GateError R

pub data GateResult (R A : Type 0) : Type 0 where
  granted : A → GateResult R A
  refused : GateError R → GateResult R A

-- One proxied request: its escrow, its destination and the override of its cost.
pub record GateRequest (R : Type 0) : Type 0 where
  pub escrow_id : ℕ
  pub destination_url : String
  pub cost_override : Option R

-- `host.endswith(suffix)`
abbrev pub ends_with : String → String → Bool
ends_with host suffix =
    leb (len suffix) (len host) && str_eq (slice host (len host - len suffix) (len host)) suffix

-- `self._escrows[key] = row`
unfoldable pub put : {V : Type 0} → ℕ → V → Table V → Table V
put k v [] = (k, v) ∷ []
put k v ((j, w) ∷ t) = if j == k then (j, v) ∷ t else (j, w) ∷ put k v t

module _ {R : Type 0} where
  unfoldable pub exact_cost : String → List (String × R) → Option R
  exact_cost host [] = none
  exact_cost host ((domain, cost) ∷ rest) =
      if str_eq domain host then some cost else exact_cost host rest

  unfoldable pub suffix_cost : String → List (String × R) → Option R
  suffix_cost host [] = none
  suffix_cost host ((domain, cost) ∷ rest) =
      if ends_with host (concat "." domain) then some cost else suffix_cost host rest

  abbrev pub first_of : Option R → Option R → R → R
  first_of (some c) o d = c
  first_of none (some c) d = c
  first_of none none d = d

  unfoldable pub compute_cost : (String → String) → CostModel R → String → R
  unfolding exact_cost suffix_cost
  compute_cost hostname (flat_fee fee) url = fee
  compute_cost hostname (per_destination default_fee overrides) url =
      let host = hostname url in
      first_of (exact_cost host overrides) (suffix_cost host overrides) default_fee

  unfoldable pub register_escrow :
      (ℤ → R) → ℕ → ℤ → String → Table (GateEscrow R) → Table (GateEscrow R)
  unfolding put
  register_escrow to_float id amount status t =
      put id (record { status = status; amount = amount; remaining = to_float amount }) t

-- escrow.remaining -= cost
abbrev pub charge : {R : Type 0} → Floats R → R → GateEscrow R → GateEscrow R
charge F cost e = record e { remaining = F.sub e.remaining cost }

module _ {R : Type 0} (F : Floats R) (hostname : String → String) (model : CostModel R) where
  abbrev pub cost_of : GateRequest R → R
  cost_of req = elim (req.cost_override) [
    | some c ↦ c
    | none ↦ compute_cost hostname model req.destination_url
  ]

  -- The gate after the request, and the cost charged.
  unfoldable pub check_and_deduct :
      GateRequest R → Table (GateEscrow R) → GateResult R (Table (GateEscrow R) × R)
  check_and_deduct req t = elim (find req.escrow_id t) [
    | none ↦ refused escrow_not_found
    | some e ↦ elim (str_eq e.status "held") [
      | false ↦ refused escrow_not_found
      | true ↦ elim (F.lt e.remaining (cost_of req)) [
        | true ↦ refused (insufficient_escrow (cost_of req) e.remaining)
        | false ↦ granted (modify req.escrow_id (charge F (cost_of req)) t, cost_of req)
      ]
    ]
  ]

  -- One request after another; one that is refused changes nothing.
  unfoldable pub serve : List (GateRequest R) → Table (GateEscrow R) → Table (GateEscrow R)
  unfolding check_and_deduct
  serve [] t = t
  serve (req ∷ reqs) t = elim (check_and_deduct req t) [
    | refused e ↦ serve reqs t
    | granted r ↦ serve reqs r.0
  ]
