-- ===== src/Exchange/Settlement/Partial/Books.antt =====
-- About the books under `partial_release` of exchange/routes/settlement.py.
use a2a_settlement.Base.{
  ℕ, ◌+◌, ◌*◌, ◌≤◌, ◌≡◌, refl, ap, ◌∙◌, true, some, arith, is_some, inl, inr, Bool-cases,
}
use a2a_settlement.Int.{pos, ◌+ℤ◌, ◌≈◌, int_laws, parts_of_eq}
use a2a_settlement.Table.{find}
use a2a_settlement.Table.Laws.{find-modify_self, is_some-find-modify}
use a2a_settlement.Table.Keys.{UniqueKeys}
use a2a_settlement.Exchange.Errors.{ok, Ensures-or_raise, Ensures-raise_if, Ensures-ok}
use a2a_settlement.Exchange.Models.{Escrow, Db}
use a2a_settlement.Exchange.Config.{Context}
use a2a_settlement.Exchange.Ledger.{
  net, gap, owed_by, spend_held, earn, modify_balance, modify_escrow, add_transaction,
}
use a2a_settlement.Exchange.Ledger.Net.{net-modify_escrow, net-modify_account}
use a2a_settlement.Exchange.Ledger.Gap.{only, gap-modify_escrow, gap-modify_account}
use a2a_settlement.Exchange.Observer.{expire_stale_held, is_held}
use a2a_settlement.Exchange.Observer.Conserves.{net-expire_stale_held}
use a2a_settlement.Exchange.Observer.Backing.{gap-expire_stale_held}
use a2a_settlement.Exchange.Settlement.Common.Books.{
  net-charged, gap-charged, net-repaid, gap-repaid, balances-add_fee, escrows-add_fee,
}
use a2a_settlement.Exchange.Settlement.Partial.{
  PartialReleaseResponse, PartialReleaseRequest, share, split, release_amount, release_fee,
  held_back_amount, held_back_fee, await_efficacy, close_released, pay_share, return_holdback,
  release_share, partial_release,
}

-- A share of at most the whole.
pub share-le : (pct n : ℕ) → pct ≤ 100 → share pct n ≤ n
unfolding share
share-le pct n h = let bound : n * pct ≤ n * 100 = grind arith in omega arith

-- The holdback and the released share together are what a held escrow locks.
waiting_owed :
    (a : ℕ) (req : PartialReleaseRequest) (e : Escrow)
    → req.release_percent ≤ 100
    → is_held e.status ≡ true
    → owed_by a e
      ≡ owed_by a (await_efficacy req (split req e))
        + only a e.requester_id (release_amount req e + release_fee req e)
waiting_owed a req e percent h = ground (
  arith,
  h,
  share-le req.release_percent e.amount percent,
  share-le req.release_percent e.fee_amount percent,
)

closed_owed :
    (a now : ℕ) (req : PartialReleaseRequest) (e : Escrow)
    → req.release_percent ≤ 100
    → is_held e.status ≡ true
    → owed_by a e
      ≡ owed_by a (close_released now (split req e))
        + only a e.requester_id (release_amount req e + release_fee req e)
        + only a e.requester_id (held_back_amount req e + held_back_fee req e)
closed_owed a now req e percent h = ground (
  arith,
  h,
  share-le req.release_percent e.amount percent,
  share-le req.release_percent e.fee_amount percent,
)

module _ {R : Type 0} (ctx : Context R) where
  net-pay_share :
      (k : ℕ) (req : PartialReleaseRequest) (e : Escrow) (db : Db R)
      → is_some (find e.requester_id db.balances) ≡ true
      → is_some (find e.provider_id db.balances) ≡ true
      → net (pay_share ctx k req e db) ≡ net db
  unfolding pay_share
  net-pay_share k req e db hr hp =
      net-charged k e.requester_id e.provider_id (release_amount req e) (release_fee req e) ctx.now
        (split req) _ _ (λ a. a) db hr hp (refl, refl)

  net-return_holdback :
      (k : ℕ) (req : PartialReleaseRequest) (e : Escrow) (db : Db R)
      → net (return_holdback ctx k req e db) ≡ net db
  unfolding return_holdback modify_escrow add_transaction
  net-return_holdback k req e db =
      net-repaid k e.requester_id (held_back_amount req e + held_back_fee req e)
        (close_released ctx.now) _ db (refl, refl)

  net-release_share :
      (k : ℕ) (req : PartialReleaseRequest) (e : Escrow) (db : Db R)
      → is_some (find e.requester_id db.balances) ≡ true
      → is_some (find e.provider_id db.balances) ≡ true
      → net (release_share ctx k req e db) ≡ net db
  unfolding release_share
  net-release_share k req e db hr hp =
      let shared = pay_share ctx k req e db in
      elim (Bool-cases (is_some req.efficacy_check_at)) [
        | inl waiting ↦
            rw (waiting, release_share)
              (net-modify_account e.provider_id _ (modify_escrow k (await_efficacy req) shared)
                ∙ (net-modify_escrow k (await_efficacy req) shared
                    ∙ net-pay_share k req e db hr hp))
        | inr settled ↦
            rw (settled, release_share)
              (net-modify_account e.provider_id _ (return_holdback ctx k req e shared)
                ∙ (net-return_holdback k req e shared ∙ net-pay_share k req e db hr hp))
      ]

  -- A partial release that succeeds neither makes nor loses money.
  pub net-partial_release :
      (current k : ℕ) (req : PartialReleaseRequest) (rows : Db R)
      → (r : Db R × PartialReleaseResponse) → partial_release ctx current k req rows ≡ ok r
      → net r.0 ≡ net rows
  unfolding partial_release
  net-partial_release current k req rows = Ensures-or_raise _ _ _ λ e at.
      Ensures-raise_if _ _ _ λ mine. Ensures-raise_if _ _ _ λ still_held.
        Ensures-or_raise _ _ _ λ rb hr. Ensures-or_raise _ _ _ λ pb hp. Ensures-ok _ _ (
          net-release_share k req e (expire_stale_held ctx.now rows) (ap is_some hr) (ap is_some hp)
          ∙ net-expire_stale_held ctx.now rows)

  -- Balances and escrows after the payment of the share.
  balances-pay_share :
      (j k : ℕ) (req : PartialReleaseRequest) (e : Escrow) (db : Db R)
      → is_some (find j db.balances) ≡ true
      → is_some (find j (pay_share ctx k req e db).balances) ≡ true
  unfolding pay_share modify_escrow add_transaction modify_balance
  balances-pay_share j k req e db known = rw balances-add_fee (
      is_some-find-modify j e.provider_id (earn (release_amount req e)) _
      ∙ (is_some-find-modify j e.requester_id
            (spend_held (release_amount req e + release_fee req e)) db.balances
          ∙ known))

  escrow-pay_share :
      (k : ℕ) (req : PartialReleaseRequest) (e : Escrow) (db : Db R)
      → find k db.escrows ≡ some e
      → find k (pay_share ctx k req e db).escrows ≡ some (split req e)
  unfolding pay_share modify_escrow add_transaction modify_balance
  escrow-pay_share k req e db at =
      rw escrows-add_fee (find-modify_self k (split req) db.escrows e at)

  gap-pay_share :
      (a k : ℕ) (req : PartialReleaseRequest) (e : Escrow) (db : Db R)
      → is_some (find e.requester_id db.balances) ≡ true
      → is_some (find e.provider_id db.balances) ≡ true
      → find k db.escrows ≡ some e
      → gap a (pay_share ctx k req e db)
          +ℤ pos (owed_by a (split req e))
          +ℤ pos (only a e.requester_id (release_amount req e + release_fee req e))
        ≈ gap a db +ℤ pos (owed_by a e)
  unfolding pay_share
  gap-pay_share a k req e db hr hp at =
      gap-charged k e.requester_id e.provider_id (release_amount req e) (release_fee req e) ctx.now
        (split req) _ _ (λ a. a) db hr hp a e at

  gap-return_holdback :
      (a k : ℕ) (req : PartialReleaseRequest) (e x : Escrow) (db : Db R)
      → is_some (find e.requester_id db.balances) ≡ true
      → find k db.escrows ≡ some x
      → gap a (return_holdback ctx k req e db)
          +ℤ pos (owed_by a (close_released ctx.now x))
          +ℤ pos (only a e.requester_id (held_back_amount req e + held_back_fee req e))
        ≈ gap a db +ℤ pos (owed_by a x)
  unfolding return_holdback modify_escrow add_transaction
  gap-return_holdback a k req e x db hr at =
      gap-repaid k e.requester_id (held_back_amount req e + held_back_fee req e)
        (close_released ctx.now) _ db a x hr at

  gap-release_share :
      (a k : ℕ) (req : PartialReleaseRequest) (e : Escrow) (db : Db R)
      → req.release_percent ≤ 100
      → is_held e.status ≡ true
      → is_some (find e.requester_id db.balances) ≡ true
      → is_some (find e.provider_id db.balances) ≡ true
      → find k db.escrows ≡ some e
      → gap a (release_share ctx k req e db) ≡ gap a db
  unfolding release_share
  gap-release_share a k req e db percent still_held hr hp at =
      let shared = pay_share ctx k req e db in
      let x = escrow-pay_share k req e db at in
      elim (Bool-cases (is_some req.efficacy_check_at)) [
        | inl waiting ↦
            rw (waiting, release_share)
              (omega (
                int_laws,
                parts_of_eq (
                    gap-modify_account a e.provider_id _
                      (modify_escrow k (await_efficacy req) shared)),
                gap-modify_escrow a k (await_efficacy req) shared (split req e) x,
                gap-pay_share a k req e db hr hp at,
                waiting_owed a req e percent still_held,
              ))
        | inr settled ↦
            rw (settled, release_share)
              (omega (
                int_laws,
                parts_of_eq
                    (gap-modify_account a e.provider_id _ (return_holdback ctx k req e shared)),
                gap-return_holdback a k req e (split req e) shared
                    (balances-pay_share e.requester_id k req e db hr) x,
                gap-pay_share a k req e db hr hp at,
                closed_owed a ctx.now req e percent still_held,
              ))
      ]

  -- A partial release of at most 100 percent that succeeds on a database with unique escrow ids
  -- keeps every account's gap: what stays held is the holdback, or nothing if it goes back at
  -- once.
  pub gap-partial_release :
      (current k a : ℕ) (req : PartialReleaseRequest) (rows : Db R)
      → UniqueKeys rows.escrows
      → req.release_percent ≤ 100
      → (r : Db R × PartialReleaseResponse) → partial_release ctx current k req rows ≡ ok r
      → gap a r.0 ≡ gap a rows
  unfolding partial_release
  gap-partial_release current k a req rows keys percent = Ensures-or_raise _ _ _ λ e at.
      Ensures-raise_if _ _ _ λ mine. Ensures-raise_if _ _ _ λ not_held.
        Ensures-or_raise _ _ _ λ rb hr. Ensures-or_raise _ _ _ λ pb hp. Ensures-ok _ _ (
          gap-release_share a k req e (expire_stale_held ctx.now rows) percent
            (ground (arith, not_held)) (ap is_some hr) (ap is_some hp) at
          ∙ gap-expire_stale_held a ctx.now rows keys)
