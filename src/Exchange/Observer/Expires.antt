-- ===== src/Exchange/Observer/Expires.antt =====
-- About the escrows that the expiry of exchange/observers.py closes.
use a2a_settlement.Base.{
  ℕ, ◌≡◌, ◌≢◌, refl, sym, ◌∙◌, Bool, true, false, some, List, [], ◌∷◌, arith, contains, ◌==◌, ◌&&◌,
  ltb, ◌<◌, ◌+◌, inl, inr, Bool-cases, Option-cases, is_some,
}
use mathlib.Core.Path.{subst}
use a2a_settlement.Table.{Table, find, select}
use a2a_settlement.Table.Laws.{find-modify_self, is_some-find-modify}
use a2a_settlement.Table.Keys.{UniqueKeys, Pending, select-Pending}
use a2a_settlement.Exchange.Models.{EscrowStatus, Escrow, Db}
use a2a_settlement.Exchange.Ledger.{unhold, modify_balance, modify_escrow, add_transaction}
use a2a_settlement.Exchange.Observer.Backing.{find-refund_escrow}
use a2a_settlement.Exchange.Observer.Frame.{find-for_each}
use a2a_settlement.Exchange.Observer.Defs.{
  for_each, refund_escrow, is_held, stale_held, expire_stale_held, resolve_as,
}

-- The query selects the key of every row that satisfies its condition.
contains-select :
    (p : Escrow → Bool) (k : ℕ) (e : Escrow) (t : Table Escrow)
    → find k t ≡ some e
    → p e ≡ true
    → contains k (select p t) ≡ true
unfolding find select
contains-select p k e [] at h = ground arith
contains-select p k e ((j, x) ∷ t) at h = elim (Bool-cases (j == k)) [
  | inl here ↦ let same : x ≡ e = ground (arith, here) in rw (same, h) (ground (arith, here))
  | inr there ↦
      let rest = contains-select p k e t (ground (arith, there)) h in
      elim (Bool-cases (p x)) [
        | inl chosen ↦ rw chosen (ground (arith, rest))
        | inr passed_over ↦ rw passed_over rest
      ]
]

module _ {R : Type 0} where
  refund_escrow-known :
      (now k : ℕ) (e : Escrow) (db : Db R)
      → find k db.escrows ≡ some e
      → is_some (find e.requester_id db.balances) ≡ true
      → find k (refund_escrow now k e db).escrows ≡ some (resolve_as EscrowStatus.expired now e)
  unfolding refund_escrow add_transaction modify_escrow modify_balance
  refund_escrow-known now k e db at known = elim (Option-cases (find e.requester_id db.balances)) [
    | inl q ↦ let impossible : ⊥ = ground (arith, known, q) in absurd impossible
    | inr (b, q) ↦
        rw (q, refund_escrow)
          (find-modify_self k (resolve_as EscrowStatus.expired now) db.escrows e at)
  ]

  pub is_some-refund_escrow :
      (now k a : ℕ) (e : Escrow) (db : Db R)
      → is_some (find a (refund_escrow now k e db).balances) ≡ is_some (find a db.balances)
  unfolding refund_escrow add_transaction modify_escrow modify_balance
  is_some-refund_escrow now k a e db = elim (Option-cases (find e.requester_id db.balances)) [
    | inl q ↦ rw (q, refund_escrow) refl
    | inr (b, q) ↦
        rw (q, refund_escrow)
          (is_some-find-modify a e.requester_id (unhold (e.amount + e.fee_amount)) db.balances)
  ]

  for_each-expires :
      (p : Escrow → Bool) (now k : ℕ) (e : Escrow) (ks : List ℕ) (t : Table Escrow) (db : Db R)
      → Pending p ks t
      → contains k ks ≡ true
      → find k db.escrows ≡ some e
      → is_some (find e.requester_id db.balances) ≡ true
      → find k (for_each (refund_escrow now) ks db).escrows
        ≡ some (resolve_as EscrowStatus.expired now e)
  unfolding for_each
  for_each-expires p now k e [] t db pending listed at known =
      let impossible : ⊥ = ground (arith, listed) in absurd impossible
  for_each-expires p now k e (j ∷ ks) t db pending listed at known = elim (Bool-cases (k == j)) [
    | inl here ↦
        let same : j ≡ k = ground (arith, here) in
        let once : contains k ks ≡ false = ground (arith, pending.1, same) in
        let found = subst (λ i. find i db.escrows ≡ some e) (sym same) at in
        rw (found, for_each)
          (subst
            (λ i.
              find k (for_each (refund_escrow now) ks (refund_escrow now i e db)).escrows
              ≡ some (resolve_as EscrowStatus.expired now e))
            (sym same)
            (find-for_each now k ks (refund_escrow now k e db) once
              ∙ refund_escrow-known now k e db at known))
    | inr there ↦
        let ne : k ≢ j = ground (arith, there) in
        let rest : contains k ks ≡ true = ground (arith, listed, there) in
        elim (Option-cases (find j db.escrows)) [
          | inl q ↦ rw (q, for_each) (for_each-expires p now k e ks t db pending.2 rest at known)
          | inr (x, q) ↦
              rw (q, for_each)
                (for_each-expires p now k e ks t (refund_escrow now j x db) pending.2 rest
                  (find-refund_escrow now j x db k ne ∙ at)
                  (is_some-refund_escrow now j e.requester_id x db ∙ known))
        ]
  ]

  -- Expiry reaches every held escrow that is past its deadline and whose requester has a
  -- balance, where escrow ids are unique: it ends as expired.
  pub expire_stale_held_complete :
      (now k : ℕ) (e : Escrow) (db : Db R)
      → UniqueKeys db.escrows
      → find k db.escrows ≡ some e
      → e.status ≡ EscrowStatus.held
      → e.expires_at < now
      → is_some (find e.requester_id db.balances) ≡ true
      → find k (expire_stale_held now db).escrows ≡ some (resolve_as EscrowStatus.expired now e)
  unfolding expire_stale_held stale_held
  expire_stale_held_complete now k e db keys at open_yet late known =
      let chosen = select (λ x. is_held x.status && ltb x.expires_at now) db.escrows in
      for_each-expires (λ x. is_held x.status && ltb x.expires_at now) now k e chosen db.escrows db
        (select-Pending (λ x. is_held x.status && ltb x.expires_at now) db.escrows keys)
        (contains-select (λ x. is_held x.status && ltb x.expires_at now) k e db.escrows at
          (ground (arith, open_yet, late)))
        at known
