-- ===== src/Exchange/Ledger/Solvent.antt =====
-- The predicate that no account's available funds are negative, and how the ledger's updates of a
-- balance bear on it.
use a2a_settlement.Base.{
  ℕ, ◌≡◌, ◌≢◌, some, arith, ◌==◌, inl, inr, Bool-cases, Option-cases, ◌∙◌, sym, false,
}
use mathlib.Core.Path.{subst}
use a2a_settlement.Int.{pos, ◌+ℤ◌, ◌-ℤ◌, ◌≤ℤ◌, ltb_ℤ, int_laws}
use a2a_settlement.Table.{Table, find, modify}
use a2a_settlement.Table.Laws.{find-modify, find-modify_self, find-modify_ne}
use a2a_settlement.Exchange.Models.{Balance, Db}
use a2a_settlement.Exchange.Ledger.Defs.{modify_balance}

-- No balance is overdrawn.
abbrev pub Solvent : {R : Type 0} → Db R → Type 0
Solvent db = (a : ℕ) (b : Balance) → find a db.balances ≡ some b → pos 0 ≤ℤ b.available

find-modified :
    (k : ℕ) (f : Balance → Balance) (t : Table Balance) (b : Balance)
    → find k (modify k f t) ≡ some b
    → (x : Balance) × (find k t ≡ some x) × (f x ≡ b)
find-modified k f t b q = elim (Option-cases (find k t)) [
  | inl lost ↦ let impossible : ⊥ = ground (arith, find-modify k k f t, lost) in absurd impossible
  | inr (x, at) ↦ let new = find-modify_self k f t x at in (x, at, cc)
]

module _ {R : Type 0} where
  pub Solvent-modify_balance :
      (k : ℕ) (f : Balance → Balance) (db : Db R)
      → ((b : Balance)
          → find k db.balances ≡ some b
          → pos 0 ≤ℤ b.available
          → pos 0 ≤ℤ (f b).available)
      → Solvent db
      → Solvent (modify_balance k f db)
  unfolding modify_balance
  Solvent-modify_balance k f db keeps h a b q = elim (Bool-cases (k == a)) [
    | inl here ↦
        let same : a ≡ k = ground (arith, here) in
        let (x, at, moved) =
          find-modified k f db.balances b
            (subst (λ j. find j (modify k f db.balances) ≡ some b) same q) in
        subst (λ y. pos 0 ≤ℤ y.available) moved (keeps x at (h k x at))
    | inr there ↦
        let ne : a ≢ k = ground (arith, there) in
        h a b (sym (find-modify_ne a k f db.balances ne) ∙ q)
  ]

  pub Solvent-gain :
      (k n : ℕ) (f : Balance → Balance) (db : Db R)
      → ((b : Balance) → (f b).available ≡ b.available +ℤ pos n)
      → Solvent db
      → Solvent (modify_balance k f db)
  Solvent-gain k n f db gain h =
      Solvent-modify_balance k f db (λ b at fine. let e = gain b in rw e (omega (int_laws, fine))) h

  pub Solvent-same : (db db' : Db R) → db'.balances ≡ db.balances → Solvent db → Solvent db'
  Solvent-same db db' e h a b q = h a b (subst (λ t. find a t ≡ some b) e q)

  -- What is spent is covered by the funds that were checked.
  pub Solvent-spend :
      (k n : ℕ) (f : Balance → Balance) (b : Balance) (db : Db R)
      → find k db.balances ≡ some b
      → ltb_ℤ b.available (pos n) ≡ false
      → ((x : Balance) → (f x).available ≡ x.available -ℤ pos n)
      → Solvent db
      → Solvent (modify_balance k f db)
  Solvent-spend k n f b db at funds spent = Solvent-modify_balance k f db λ x at' fine.
      let same : b ≡ x = cc in
      let covered : pos n ≤ℤ b.available = ground (arith, funds) in
      let e = spent x in rw (e, sym same) (omega (int_laws, covered))
