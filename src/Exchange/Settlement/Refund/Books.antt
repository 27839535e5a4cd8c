-- ===== src/Exchange/Settlement/Refund/Books.antt =====
-- About the books under `refund` of exchange/routes/settlement.py.
use a2a_settlement.Base.{
  ℕ, ◌+◌, ◌≡◌, refl, ap, ◌∙◌, true, none, some, [], arith, is_some, inl, inr, Bool-cases,
}
use a2a_settlement.Int.{int_laws}
use a2a_settlement.Table.{Table, find}
use a2a_settlement.Table.Keys.{UniqueKeys}
use a2a_settlement.Exchange.Errors.{
  ok, Ensures, Ensures-or_raise, Ensures-raise_if, Ensures-ok, Ensures-bind,
}
use a2a_settlement.Exchange.Models.{EscrowStatus, Escrow, Db}
use a2a_settlement.Exchange.Config.{Context}
use a2a_settlement.Exchange.Ledger.{net, gap, owed_by, fee_of, issue_of}
use a2a_settlement.Exchange.Ledger.Net.{net-modify_account}
use a2a_settlement.Exchange.Ledger.Gap.{only, gap-modify_account}
use a2a_settlement.Exchange.Observer.{expire_stale_held}
use a2a_settlement.Exchange.Observer.Conserves.{net-expire_stale_held}
use a2a_settlement.Exchange.Observer.Backing.{gap-expire_stale_held}
use a2a_settlement.Exchange.Settlement.Common.{is_partially_released, is_settleable, movement}
use a2a_settlement.Exchange.Settlement.Common.Books.{net-repaid, gap-repaid}
use a2a_settlement.Exchange.Settlement.Refund.Cascade.{
  net-auto_refund_dependents, auto_refund_dependents_none,
}
use a2a_settlement.Exchange.Settlement.Refund.{
  RefundResponse, dependents_of, refund_total, mark_refunded, refund_type, refund_funds,
  refund_rest, refund,
}

refund_type-IsNeutral :
    (s : EscrowStatus) (n : ℕ) → (fee_of (refund_type s) n ≡ 0) × (issue_of (refund_type s) n ≡ 0)
refund_type-IsNeutral s n = ground arith

-- A refund gives up exactly what was locked of the requester's funds.
refunded_owed :
    (a now : ℕ) (e : Escrow)
    → is_settleable e.status ≡ true
    → owed_by a e ≡ owed_by a (mark_refunded now e) + only a e.requester_id (refund_total e)
refunded_owed a now e h = ground (arith, h)

module _ {R : Type 0} (ctx : Context R) where
  net-refund_funds : (k : ℕ) (e : Escrow) (db : Db R) → net (refund_funds ctx k e db) ≡ net db
  unfolding refund_funds
  net-refund_funds k e db =
      net-modify_account e.provider_id _ _
      ∙ net-repaid k e.requester_id (refund_total e) (mark_refunded ctx.now) _ db
          (refund_type-IsNeutral e.status (refund_total e))

  net-refund_rest :
      (fuel : ℕ) (rows : Table Escrow) (k : ℕ) (e : Escrow) (db : Db R)
      → Ensures (refund_rest ctx fuel rows k e db) (λ d. net d ≡ net db)
  net-refund_rest fuel rows k e db = elim (Bool-cases (is_partially_released e.status)) [
    | inl holdback ↦ rw holdback (Ensures-ok _ _ refl)
    | inr whole ↦ rw whole (net-auto_refund_dependents ctx.now rows fuel k db)
  ]

  -- A refund that succeeds neither makes nor loses money, with every refund of a dependent that
  -- it sets off.
  pub net-refund :
      (fuel current k : ℕ) (rows : Db R) (r : Db R × RefundResponse)
      → refund ctx fuel current k rows ≡ ok r
      → net r.0 ≡ net rows
  unfolding refund
  net-refund fuel current k rows =
      let db = expire_stale_held ctx.now rows in
      Ensures-or_raise _ _ _ λ e at. Ensures-raise_if _ _ _ λ mine.
        Ensures-raise_if _ _ _ λ open_status. Ensures-or_raise _ _ _ λ b hb.
          Ensures-bind _ _ λ d hd. Ensures-ok _ _ (
            net-refund_rest fuel rows.escrows k e (refund_funds ctx k e db) d hd
            ∙ (net-refund_funds k e db ∙ net-expire_stale_held ctx.now rows))

  gap-refund_funds :
      (a k : ℕ) (e : Escrow) (db : Db R)
      → is_settleable e.status ≡ true
      → is_some (find e.requester_id db.balances) ≡ true
      → find k db.escrows ≡ some e
      → gap a (refund_funds ctx k e db) ≡ gap a db
  unfolding refund_funds
  gap-refund_funds a k e db h known at =
      gap-modify_account a e.provider_id _ _
      ∙ omega (
        int_laws,
        gap-repaid k e.requester_id (refund_total e) (mark_refunded ctx.now)
            (movement ctx.now (some k) none (some e.requester_id) (refund_total e)
              (refund_type e.status) e.self_dealing_class)
            db a e known at,
        refunded_owed a ctx.now e h,
      )

  rest_without_dependents :
      (fuel : ℕ) (rows : Table Escrow) (k : ℕ) (e : Escrow) (db d : Db R)
      → dependents_of k rows ≡ []
      → refund_rest ctx fuel rows k e db ≡ ok d
      → d ≡ db
  rest_without_dependents fuel rows k e db d alone q =
      elim (Bool-cases (is_partially_released e.status)) [
        | inl holdback ↦ let same = rw holdback at q in cc
        | inr whole ↦ auto_refund_dependents_none ctx.now rows fuel k db d alone (rw whole at q)
      ]

  -- A refund that succeeds, of an escrow on which no held escrow depends and where escrow ids
  -- are unique, keeps every account's gap.
  pub gap-refund :
      (fuel current k a : ℕ) (rows : Db R) (r : Db R × RefundResponse)
      → UniqueKeys rows.escrows
      → dependents_of k rows.escrows ≡ []
      → refund ctx fuel current k rows ≡ ok r
      → gap a r.0 ≡ gap a rows
  unfolding refund
  gap-refund fuel current k a rows r keys alone q =
      let db = expire_stale_held ctx.now rows in
      Ensures-or_raise {P = λ x. gap a x.0 ≡ gap a rows} _ _ _
        (λ e at. Ensures-raise_if _ _ _ λ mine. Ensures-raise_if _ _ _ λ open_status.
          Ensures-or_raise _ _ _ λ b hb. Ensures-bind _ _ λ d hd. Ensures-ok _ _ (
            ap (gap a)
              (rest_without_dependents fuel rows.escrows k e (refund_funds ctx k e db) d alone hd)
            ∙ (gap-refund_funds a k e db (ground (arith, open_status)) (ap is_some hb) at
                ∙ gap-expire_stale_held a ctx.now rows keys)))
        r q
