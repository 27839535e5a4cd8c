-- ===== src/Exchange/Settlement/Resolve/Books.antt =====
-- About the books under `resolve` of exchange/routes/settlement.py.
use a2a_settlement.Base.{ℕ, ◌+◌, ◌≡◌, refl, ap, ◌∙◌, true, none, some, Option, arith, is_some}
use a2a_settlement.Int.{int_laws}
use a2a_settlement.Table.{find}
use a2a_settlement.Table.Laws.{find-modify_self}
use a2a_settlement.Exchange.Errors.{ok, Ensures, Ensures-or_raise, Ensures-raise_if, Ensures-ok}
use a2a_settlement.Exchange.Models.{
  AccountStatus, EscrowStatus, ProvenanceResult, Escrow, TxType, Db,
}
use a2a_settlement.Exchange.Config.{Context}
use a2a_settlement.Exchange.Ledger.{net, gap, owed_by, locked_in, modify_escrow}
use a2a_settlement.Exchange.Ledger.Net.{net-modify_escrow, net-modify_account}
use a2a_settlement.Exchange.Ledger.Gap.{only, gap-modify_escrow, gap-modify_account}
use a2a_settlement.Exchange.Observer.{resolve_as}
use a2a_settlement.Exchange.Settlement.Common.{is_in_dispute, movement}
use a2a_settlement.Exchange.Settlement.Common.Books.{
  net-payment, gap-payment, net-repaid, gap-repaid, PartiesKnown,
}
use a2a_settlement.Exchange.Settlement.Resolve.{
  Resolution, ResolveRequest, ResolveResponse, note_ruling, resolve_release, resolve_refund,
  carry_out, resolve,
}
use a2a_settlement.Exchange.Settlement.Resolve.Stake.{
  net-settle_dispute_stake, StakeSettled, stake_settled,
}

-- Either resolution gives up exactly what a disputed escrow locks.
resolved_owed :
    (a now : ℕ) (s : EscrowStatus) (e x : Escrow)
    → is_in_dispute e.status ≡ true
    → x.requester_id ≡ e.requester_id
    → x.amount ≡ e.amount
    → x.fee_amount ≡ e.fee_amount
    → x.status ≡ e.status
    → locked_in s 1 1 ≡ 0
    → owed_by a x ≡ owed_by a (resolve_as s now x) + only a e.requester_id (e.amount + e.fee_amount)
resolved_owed a now s e x h same_requester same_amount same_fee same_status closed =
    ground (arith, h, same_requester, same_amount, same_fee, same_status, closed)

module _ {R : Type 0} (ctx : Context R) where
  net-carry_out :
      (req : ResolveRequest) (k : ℕ) (e : Escrow) (r : Resolution) (db : Db R)
      → Ensures (carry_out ctx req k e r db) (λ x. net x.0 ≡ net db)
  unfolding carry_out resolve_release resolve_refund
  net-carry_out req k e Resolution.to_release db = Ensures-or_raise _ _ _ λ rb hr.
      Ensures-or_raise _ _ _ λ pb hp. Ensures-ok _ _ (
        net-payment k e.requester_id e.provider_id e.amount e.fee_amount ctx.now
          (resolve_as EscrowStatus.released ctx.now) _ _ _ db (ap is_some hr) (ap is_some hp)
          (refl, refl))
  net-carry_out req k e _ db = Ensures-or_raise _ _ _ λ rb hr. Ensures-ok _ _ (
      net-modify_account e.provider_id _ _
      ∙ net-repaid k e.requester_id (e.amount + e.fee_amount)
          (resolve_as EscrowStatus.refunded ctx.now) _ db (refl, refl))

  -- A resolution that succeeds, of an escrow whose parties have balances, neither makes nor
  -- loses money, whatever the resolution and the ruling on the stake.
  pub net-resolve :
      (caller : AccountStatus) (k : ℕ) (req : ResolveRequest) (db : Db R)
      → PartiesKnown k db
      → (r : Db R × ResolveResponse) → resolve ctx caller k req db ≡ ok r
      → net r.0 ≡ net db
  unfolding resolve modify_escrow
  net-resolve caller k req db known = Ensures-raise_if _ _ _ λ valid.
      Ensures-raise_if _ _ _ λ operator. Ensures-or_raise _ _ _ λ e at.
        Ensures-raise_if _ _ _ λ in_dispute. λ r q.
          net-carry_out req k (note_ruling req e) req.resolution _ r q
          ∙ (net-settle_dispute_stake ctx.now k (note_ruling req e) req.stake_ruling
                (modify_escrow k (note_ruling req) db) (known e at).0 (known e at).1
              ∙ net-modify_escrow k (note_ruling req) db)

  gap-resolve_refund :
      (a k : ℕ) (e : Escrow) (p : Option ProvenanceResult) (db0 db : Db R)
      → is_in_dispute e.status ≡ true
      → StakeSettled a k e db0 db
      → is_some (find e.requester_id db.balances) ≡ true
      → gap a (resolve_refund ctx k e p db) ≡ gap a db
  unfolding resolve_refund
  gap-resolve_refund a k e p db0 db h s hr =
      gap-modify_account a e.provider_id _ _
      ∙ omega (
        int_laws,
        gap-repaid k e.requester_id (e.amount + e.fee_amount)
            (resolve_as EscrowStatus.refunded ctx.now)
            (movement ctx.now (some k) none (some e.requester_id) (e.amount + e.fee_amount)
              TxType.escrow_refund e.self_dealing_class)
            db a s.settled hr s.at,
        resolved_owed a ctx.now EscrowStatus.refunded e s.settled h s.requester s.amount
            s.fee_amount s.status refl,
      )

  gap_noted :
      (a k : ℕ) (req : ResolveRequest) (e : Escrow) (db : Db R)
      → find k db.escrows ≡ some e
      → gap a (modify_escrow k (note_ruling req) db) ≡ gap a db
  gap_noted a k req e db at = omega (int_laws, gap-modify_escrow a k (note_ruling req) db e at)

  gap-carry_out :
      (a k : ℕ) (req : ResolveRequest) (e : Escrow) (r : Resolution) (db0 db : Db R)
      → is_in_dispute e.status ≡ true
      → StakeSettled a k e db0 db
      → Ensures (carry_out ctx req k e r db) (λ x. gap a x.0 ≡ gap a db0)
  unfolding carry_out resolve_release resolve_refund
  gap-carry_out a k req e Resolution.to_release db0 db h s = Ensures-or_raise _ _ _ λ rb hr.
      Ensures-or_raise _ _ _ λ pb hp. Ensures-ok _ _ (
        gap-payment k e.requester_id e.provider_id e.amount e.fee_amount ctx.now
          (resolve_as EscrowStatus.released ctx.now) _ _ _ db (ap is_some hr) (ap is_some hp) a
          s.settled s.at
          (resolved_owed a ctx.now EscrowStatus.released e s.settled h s.requester s.amount
            s.fee_amount s.status refl)
        ∙ s.same_gap)
  gap-carry_out a k req e _ db0 db h s = Ensures-or_raise _ _ _ λ rb hr.
      Ensures-ok _ _
        (gap-resolve_refund a k e req.provenance_result db0 db h s (ap is_some hr) ∙ s.same_gap)

  -- A resolution that succeeds, of an escrow whose parties have balances, keeps every account's
  -- gap, whatever the resolution and the ruling on the stake.
  pub gap-resolve :
      (a : ℕ) (caller : AccountStatus) (k : ℕ) (req : ResolveRequest) (db : Db R)
      → PartiesKnown k db
      → (r : Db R × ResolveResponse) → resolve ctx caller k req db ≡ ok r
      → gap a r.0 ≡ gap a db
  unfolding resolve modify_escrow
  gap-resolve a caller k req db known = Ensures-raise_if _ _ _ λ valid.
      Ensures-raise_if _ _ _ λ operator. Ensures-or_raise _ _ _ λ e at.
        Ensures-raise_if _ _ _ λ in_dispute. λ r q.
          let noted = modify_escrow k (note_ruling req) db in
          gap-carry_out a k req (note_ruling req e) req.resolution noted _
            (ground (arith, in_dispute))
            (stake_settled ctx.now a k (note_ruling req e) noted
              (find-modify_self k (note_ruling req) db.escrows e at) (known e at).0 (known e at).1
              req.stake_ruling)
            r q
          ∙ gap_noted a k req e db at
