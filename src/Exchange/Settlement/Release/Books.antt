-- ===== src/Exchange/Settlement/Release/Books.antt =====
-- About the books under `release` of exchange/routes/settlement.py.
use a2a_settlement.Base.{ℕ, ◌+◌, ◌≡◌, ap, ◌∙◌, true, arith, is_some}
use a2a_settlement.Table.Keys.{UniqueKeys}
use a2a_settlement.Exchange.Errors.{ok, Ensures-or_raise, Ensures-raise_if, Ensures-ok}
use a2a_settlement.Exchange.Models.{EscrowStatus, Escrow, Db}
use a2a_settlement.Exchange.Config.{Context}
use a2a_settlement.Exchange.Ledger.{net, gap, owed_by, fee_of, issue_of}
use a2a_settlement.Exchange.Ledger.Gap.{only}
use a2a_settlement.Exchange.Observer.{expire_stale_held}
use a2a_settlement.Exchange.Observer.Conserves.{net-expire_stale_held}
use a2a_settlement.Exchange.Observer.Backing.{gap-expire_stale_held}
use a2a_settlement.Exchange.Settlement.Common.{is_settleable}
use a2a_settlement.Exchange.Settlement.Common.Books.{net-payment, gap-payment}
use a2a_settlement.Exchange.Settlement.Release.{
  pay_amount, pay_fee, mark_released, release_type, release_funds, release, ReleaseResponse,
}

release_type-IsNeutral :
    (s : EscrowStatus) (n : ℕ) → (fee_of (release_type s) n ≡ 0) × (issue_of (release_type s) n ≡ 0)
release_type-IsNeutral s n = ground arith

-- A release gives up exactly what was locked of the requester's funds.
released_owed :
    (a now : ℕ) (e : Escrow)
    → is_settleable e.status ≡ true
    → owed_by a e
      ≡ owed_by a (mark_released now e) + only a e.requester_id (pay_amount e + pay_fee e)
released_owed a now e h = ground (arith, h)

module _ {R : Type 0} (ctx : Context R) where
  -- A release that succeeds neither makes nor loses money: all balances and collected fees, less
  -- what was minted and deposited, add up to the same.
  pub net-release :
      (current k : ℕ) (rows : Db R)
      → (r : Db R × ReleaseResponse) → release ctx current k rows ≡ ok r
      → net r.0 ≡ net rows
  unfolding release release_funds
  net-release current k rows =
      let db = expire_stale_held ctx.now rows in
      Ensures-or_raise _ _ _ λ e at. Ensures-raise_if _ _ _ λ mine.
        Ensures-raise_if _ _ _ λ open_status. Ensures-raise_if _ _ _ λ upstream.
          Ensures-or_raise _ _ _ λ rb hr. Ensures-or_raise _ _ _ λ pb hp. Ensures-ok _ _ (
            net-payment k e.requester_id e.provider_id (pay_amount e) (pay_fee e) ctx.now
              (mark_released ctx.now) _ _ _ db (ap is_some hr) (ap is_some hp)
              (release_type-IsNeutral e.status (pay_amount e))
            ∙ net-expire_stale_held ctx.now rows)

  -- A release that succeeds on a database with unique escrow ids keeps every account's gap: what
  -- is held from it, less what its open escrows and held stakes account for.
  pub gap-release :
      (current k a : ℕ) (rows : Db R)
      → UniqueKeys rows.escrows
      → (r : Db R × ReleaseResponse) → release ctx current k rows ≡ ok r
      → gap a r.0 ≡ gap a rows
  unfolding release release_funds
  gap-release current k a rows keys =
      let db = expire_stale_held ctx.now rows in
      Ensures-or_raise _ _ _ λ e at. Ensures-raise_if _ _ _ λ mine.
        Ensures-raise_if _ _ _ λ open_status. Ensures-raise_if _ _ _ λ upstream.
          Ensures-or_raise _ _ _ λ rb hr. Ensures-or_raise _ _ _ λ pb hp. Ensures-ok _ _ (
            gap-payment k e.requester_id e.provider_id (pay_amount e) (pay_fee e) ctx.now
              (mark_released ctx.now) _ _ _ db (ap is_some hr) (ap is_some hp) a e at
              (released_owed a ctx.now e (ground (arith, open_status)))
            ∙ gap-expire_stale_held a ctx.now rows keys)
