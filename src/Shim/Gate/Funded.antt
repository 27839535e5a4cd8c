-- ===== src/Shim/Gate/Funded.antt =====
-- About `EscrowGate.check_and_deduct` of shim/escrow_gate.py.
use a2a_settlement.Base.{
  ℕ, ◌≡◌, refl, sym, ap, ◌∙◌, true, false, Option, none, some, List, [], ◌∷◌, ◌==◌, Bool-cases,
  Option-cases, ◌⊎◌, inl, inr, ==→eq, ==→ne,
}
use a2a_settlement.Table.{Table, find, modify}
use a2a_settlement.Table.Laws.{find-modify_self, find-modify_ne}
use a2a_settlement.Exchange.Config.{Floats}
use a2a_settlement.Shim.Gate.{
  GateEscrow, CostModel, GateRequest, GateError, escrow_not_found, insufficient_escrow, granted,
  refused, charge, compute_cost, cost_of, check_and_deduct, serve,
}
use mathlib.Core.Path.{subst}
use mathlib.Core.Option.{some-injective}
use Prim.Native.String.{String}
use text.Mathlib.Text.{◌==◌ as str_eq}

given_or :
    {R : Type 0} (given : Option R) (d : R)
    → let c : R = elim given [ some c ↦ c | none ↦ d ] in
      (given ≡ some c) ⊎ ((given ≡ none) × (c ≡ d))
given_or none d = inr (refl, refl)
given_or (some c) d = inl refl

module _ {R : Type 0} (F : Floats R) where
  -- A float less one that is not above it is not negative.
  pub record FloatSub : Type 0 where
    pub nonnegative : (x y : R) → F.lt x y ≡ false → F.lt (F.sub x y) (F.literal 0 1) ≡ false

  -- No escrow is overdrawn.
  abbrev pub IsFunded : Table (GateEscrow R) → Type 0
  IsFunded t =
      (k : ℕ) (e : GateEscrow R) → find k t ≡ some e → F.lt e.remaining (F.literal 0 1) ≡ false

  module _ (hostname : String → String) (model : CostModel R) where
    IsFunded-charge :
        (S : FloatSub) (j : ℕ) (cost : R) (e : GateEscrow R) (t : Table (GateEscrow R))
        → find j t ≡ some e
        → F.lt e.remaining cost ≡ false
        → IsFunded t
        → IsFunded (modify j (charge F cost) t)
    IsFunded-charge S j cost e t at enough ok k e' at' = elim (Bool-cases (k == j)) [
      | inr other ↦ ok k e' (sym (find-modify_ne k j (charge F cost) t (==→ne k j other)) ∙ at')
      | inl same ↦
          let here : find k (modify j (charge F cost) t) ≡ some (charge F cost e) =
            ap (λ i. find i (modify j (charge F cost) t)) (==→eq k j same)
            ∙ find-modify_self j (charge F cost) t e at in
          ap (λ x. F.lt x.remaining (F.literal 0 1)) (some-injective e' _ (sym at' ∙ here))
          ∙ S.nonnegative e.remaining cost enough
    ]

    -- The cost of a request: its override, if there is one, or what the model asks.
    abbrev pub IsCost : GateRequest R → R → Type 0
    IsCost req c =
        (req.cost_override ≡ some c)
        ⊎ ((req.cost_override ≡ none) × (c ≡ compute_cost hostname model req.destination_url))

    cost_of-IsCost : (req : GateRequest R) → IsCost req (cost_of F hostname model req)
    cost_of-IsCost req =
        given_or req.cost_override (compute_cost hostname model req.destination_url)

    -- What a request that is granted was checked for, and what it changes.
    abbrev pub Charged : GateRequest R → Table (GateEscrow R) → Table (GateEscrow R) × R → Type 0
    Charged req t r =
        (e : GateEscrow R) × (find req.escrow_id t ≡ some e)
        × (str_eq e.status "held" ≡ true)
        × IsCost req r.1
        × (F.lt e.remaining r.1 ≡ false)
        × (find req.escrow_id r.0 ≡ some (record e { remaining = F.sub e.remaining r.1 }))
        × IsFunded r.0

    abbrev GateAnswer : GateRequest R → Table (GateEscrow R) → Type 0
    GateAnswer req t =
        ((x : GateError R) × (check_and_deduct F hostname model req t ≡ refused x))
        ⊎ ((e : GateEscrow R) × (find req.escrow_id t ≡ some e)
            × (str_eq e.status "held" ≡ true)
            × (F.lt e.remaining (cost_of F hostname model req) ≡ false)
            × (check_and_deduct F hostname model req t
                ≡ granted (
                  modify req.escrow_id (charge F (cost_of F hostname model req)) t,
                  cost_of F hostname model req,
                )))

    -- The ways in which a request is answered.
    answer_cases : (req : GateRequest R) (t : Table (GateEscrow R)) → GateAnswer req t
    unfolding check_and_deduct
    answer_cases req t = elim (Option-cases (find req.escrow_id t)) [
      | inl missing ↦ inl (escrow_not_found, rw (check_and_deduct, missing) refl)
      | inr (e, at) ↦ elim (Bool-cases (str_eq e.status "held")) [
        | inr closed ↦ inl (escrow_not_found, rw (check_and_deduct, at, closed) refl)
        | inl open_status ↦ elim (Bool-cases (F.lt e.remaining (cost_of F hostname model req))) [
          | inl short ↦ inl (
            insufficient_escrow (cost_of F hostname model req) e.remaining,
            rw (check_and_deduct, at, open_status, short) refl,
          )
          | inr enough ↦
              inr (e, at, open_status, enough, rw (check_and_deduct, at, open_status, enough) refl)
        ]
      ]
    ]

    -- If no escrow of the gate is overdrawn and a float less one that is not above it is not
    -- negative, a request that is granted names an escrow that is held; the cost is the
    -- request's own where it gives one and else that of the cost model for its destination, the
    -- escrow's remaining funds were not below it and become their difference with it, and no
    -- escrow is overdrawn after it.
    pub check_and_deduct-Charged :
        (req : GateRequest R) (t : Table (GateEscrow R)) (r : Table (GateEscrow R) × R)
        → FloatSub
        → IsFunded t
        → check_and_deduct F hostname model req t ≡ granted r
        → Charged req t r
    check_and_deduct-Charged req t r S ok run = elim (answer_cases req t) [
      | inl (x, denied) ↦ let impossible : ⊥ = cc in absurd impossible
      | inr (e, at, open_status, enough, run_yes) ↦
          let cost = cost_of F hostname model req in
          let same : (modify req.escrow_id (charge F cost) t, cost) ≡ r = cc in
          subst (Charged req t) same (
            e,
            at,
            open_status,
            cost_of-IsCost req,
            enough,
            find-modify_self req.escrow_id (charge F cost) t e at,
            IsFunded-charge S req.escrow_id cost e t at enough ok,
          )
    ]

    serve-granted :
        (req : GateRequest R) (reqs : List (GateRequest R)) (t : Table (GateEscrow R))
        (r : Table (GateEscrow R) × R)
        → check_and_deduct F hostname model req t ≡ granted r
        → serve F hostname model (req ∷ reqs) t ≡ serve F hostname model reqs r.0
    unfolding serve
    serve-granted req reqs t r run = rw (serve, run) refl

    serve-refused :
        (req : GateRequest R) (reqs : List (GateRequest R)) (t : Table (GateEscrow R))
        (x : GateError R)
        → check_and_deduct F hostname model req t ≡ refused x
        → serve F hostname model (req ∷ reqs) t ≡ serve F hostname model reqs t
    unfolding serve
    serve-refused req reqs t x run = rw (serve, run) refl

    -- However many requests are served, no escrow is overdrawn.
    pub serve-IsFunded :
        (reqs : List (GateRequest R)) (t : Table (GateEscrow R))
        → FloatSub
        → IsFunded t
        → IsFunded (serve F hostname model reqs t)
    unfolding serve
    serve-IsFunded [] t S ok = ok
    serve-IsFunded (req ∷ reqs) t S ok = elim (answer_cases req t) [
      | inl (x, denied) ↦
          subst IsFunded (sym (serve-refused req reqs t x denied)) (serve-IsFunded reqs t S ok)
      | inr (e, at, open_status, enough, run_yes) ↦
          let cost = cost_of F hostname model req in
          subst IsFunded (sym (serve-granted req reqs t _ run_yes)) (
            serve-IsFunded reqs (modify req.escrow_id (charge F cost) t) S
              (IsFunded-charge S req.escrow_id cost e t at enough ok))
    ]
