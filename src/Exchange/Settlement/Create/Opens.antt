-- ===== src/Exchange/Settlement/Create/Opens.antt =====
-- About the escrow that `create_escrow` of exchange/routes/settlement.py opens, and its query for
-- duplicates.
use a2a_settlement.Base.{
  ℕ, ◌+◌, ◌≡◌, ◌≢◌, refl, ◌∙◌, true, false, none, some, [], ◌∷◌, arith, is_some, inl, inr,
  Option-cases, Bool-cases, ◌==◌, Bool,
}
use a2a_settlement.Int.{pos, pos_part}
use a2a_settlement.Table.{Table, find}
use a2a_settlement.Table.Laws.{find-append_self, is_some-find-modify}
use a2a_settlement.Exchange.Errors.{
  ok, Ensures-or_raise, Ensures-raise_if, Ensures-bind, Ensures-ok,
}
use a2a_settlement.Exchange.Models.{EscrowStatus, Escrow, Db}
use a2a_settlement.Exchange.Config.{Context}
use a2a_settlement.Exchange.Fees.{fee_amount}
use a2a_settlement.Exchange.Kya.{check_kya_gate}
use a2a_settlement.Exchange.Guard.Keeps.{check-SameBooks}
use a2a_settlement.Exchange.Ledger.{modify_balance, modify_escrow, add_escrow, add_transaction}
use a2a_settlement.Exchange.Observer.{refund_escrow, expire_stale_held, stale_held, resolve_as}
use a2a_settlement.Exchange.Observer.Loops.{for_each-keeps}
use a2a_settlement.Exchange.Settlement.Create.{
  EscrowRequest, EscrowResponse, new_escrow, open_escrow, create_escrow, is_duplicate, some_row,
}

some_row-find :
    (p : Escrow → Bool) (k : ℕ) (e : Escrow) (t : Table Escrow)
    → find k t ≡ some e
    → p e ≡ true
    → some_row p t ≡ true
unfolding some_row find
some_row-find p k e [] at h = ground arith
some_row-find p k e ((j, x) ∷ t) at h = elim (Bool-cases (j == k)) [
  | inl here ↦ let same : x ≡ e = ground (arith, here) in rw same (ground (arith, h))
  | inr there ↦ let rest = some_row-find p k e t (ground (arith, there)) h in ground (arith, rest)
]

module _ {R : Type 0} where
  missing-refund_escrow :
      (now k j : ℕ) (e : Escrow) (db : Db R)
      → is_some (find j (refund_escrow now k e db).escrows) ≡ is_some (find j db.escrows)
  unfolding refund_escrow add_transaction modify_escrow modify_balance
  missing-refund_escrow now k j e db = elim (Option-cases (find e.requester_id db.balances)) [
    | inl q ↦ rw (q, refund_escrow) refl
    | inr (b, q) ↦
        rw (q, refund_escrow)
          (is_some-find-modify j k (resolve_as EscrowStatus.expired now) db.escrows)
  ]

  missing-expire_stale_held :
      (now j : ℕ) (db : Db R)
      → find j db.escrows ≡ none
      → find j (expire_stale_held now db).escrows ≡ none
  unfolding expire_stale_held stale_held
  missing-expire_stale_held now j db h =
      let kept =
        for_each-keeps (λ d. is_some (find j d.escrows) ≡ false) (refund_escrow now)
          (λ k e d at known. missing-refund_escrow now k j e d ∙ known) (stale_held now db) db
          (rw h refl) in
      elim (Option-cases (find j (expire_stale_held now db).escrows)) [
        | inl gone ↦ gone
        | inr (x, at) ↦ let impossible : ⊥ = ground (arith, kept, at) in absurd impossible
      ]

module _ {R : Type 0} (ctx : Context R) where
  -- A creation that succeeds under a fresh id leaves under that id a held escrow between the two
  -- parties for exactly the requested amount and the fee on it, and reports their sum as held.
  pub create_escrow_opens :
      (current id : ℕ) (req : EscrowRequest) (rows : Db R)
      → find id rows.escrows ≡ none
      → (r : Db R × EscrowResponse) → create_escrow ctx current id req rows ≡ ok r
      → (e : Escrow) × (find id r.0.escrows ≡ some e)
        × (e.status ≡ EscrowStatus.held)
        × (e.requester_id ≡ current)
        × (e.provider_id ≡ req.provider_id)
        × (pos e.amount ≡ req.amount)
        × (e.fee_amount ≡ fee_amount ctx.settings e.amount)
        × (r.1.total_held ≡ e.amount + e.fee_amount)
  unfolding create_escrow open_escrow add_transaction add_escrow modify_balance
  create_escrow_opens current id req rows new = Ensures-raise_if _ _ _ λ range.
      Ensures-raise_if _ _ _ λ other_party. Ensures-or_raise _ _ _ λ b hb.
        Ensures-raise_if _ _ _ λ funds. Ensures-bind _ _ λ db' checked.
          Ensures-or_raise _ _ _ λ p hp. Ensures-raise_if _ _ _ λ p_active.
            Ensures-raise_if _ _ _ λ kya. Ensures-raise_if _ _ _ λ dependencies.
              Ensures-raise_if _ _ _ λ task.
                let gate =
                  check_kya_gate ctx.settings db' current req.provider_id (pos_part req.amount) in
                let same = check-SameBooks ctx.settings ctx.now current _ _ db' checked in
                let absent = missing-expire_stale_held ctx.now id rows new in
                let whole : pos (pos_part req.amount) ≡ req.amount = ground (arith, range) in
                Ensures-ok _ _ (
                  new_escrow ctx current req gate,
                  find-append_self id (new_escrow ctx current req gate) db'.escrows
                      (rw same.escrows absent),
                  refl,
                  refl,
                  refl,
                  whole,
                  refl,
                  refl,
                )

  -- A held row of the same parties and task refuses a creation, whatever its expiry: one that
  -- this very request expires first is still read with its old status.
  pub create_escrow_duplicate :
      (current id k : ℕ) (req : EscrowRequest) (e : Escrow) (rows : Db R)
      → find k rows.escrows ≡ some e
      → is_duplicate current req.provider_id req.task_id e ≡ true
      → (r : Db R × EscrowResponse) → create_escrow ctx current id req rows ≢ ok r
  unfolding create_escrow
  create_escrow_duplicate current id k req e rows at dup = Ensures-raise_if _ _ _ λ range.
      Ensures-raise_if _ _ _ λ other_party. Ensures-or_raise _ _ _ λ b hb.
        Ensures-raise_if _ _ _ λ funds. Ensures-bind _ _ λ db' checked.
          Ensures-or_raise _ _ _ λ p hp. Ensures-raise_if _ _ _ λ p_active.
            Ensures-raise_if _ _ _ λ kya. Ensures-raise_if _ _ _ λ dependencies.
              Ensures-raise_if {P = λ _. ⊥} _ _ _ λ task r q.
                let found =
                  some_row-find (is_duplicate current req.provider_id req.task_id) k e rows.escrows
                    at dup in
                ground (arith, found, task)
