-- ===== src/Exchange/Observer/Conserves.antt =====
-- About the net position of the books under the passes of exchange/observers.py.
use a2a_settlement.Base.{
  ℕ, ◌+◌, ◌≡◌, ◌≢◌, sym, refl, ◌∙◌, some, arith, is_some, inl, inr, Option-cases, true, ap,
  Bool-cases, ◌==◌, contains,
}
use a2a_settlement.Int.{pos, ◌≈◌, ◌≤ℤ◌, ◌+ℤ◌, ◌-ℤ◌, int_laws, parts_of_eq}
use a2a_settlement.Table.{find, modify}
use a2a_settlement.Table.Laws.{find-modify_self, find-modify_ne}
use a2a_settlement.Exchange.Models.{Balance, EscrowStatus, Escrow, Db}
use a2a_settlement.Exchange.Ledger.{
  collected, add_transaction, unhold, spend_held, earn, modify_balance, modify_escrow, net,
}
use a2a_settlement.Exchange.Ledger.Net.{
  net-unhold, net-pay_out, net-modify_escrow, net-add_transaction,
}
use a2a_settlement.Exchange.Observer.Defs.{
  resolve_as, refund_tx, refund_escrow, release_tx, pay_provider, release_escrow, default_judgment,
  close_window, expire_stale_held, expire_stale_disputes, expire_evidence_windows, respondent,
  submitter_ids, stale_held, stale_disputes, closed_windows,
}
use a2a_settlement.Exchange.Observer.Loops.{for_each-keeps}

module _ {R : Type 0} where
  pub net-refund_escrow :
      (now k : ℕ) (e : Escrow) (db : Db R) → net (refund_escrow now k e db) ≡ net db
  unfolding refund_escrow
  net-refund_escrow now k e db = elim (Option-cases (find e.requester_id db.balances)) [
    | inl q ↦ rw (q, refund_escrow) refl
    | inr (b, q) ↦
        let paid = modify_balance e.requester_id (unhold (e.amount + e.fee_amount)) db in
        let closed = modify_escrow k (resolve_as EscrowStatus.expired now) paid in
        rw (q, refund_escrow)
          (omega (
            int_laws,
            net-add_transaction (refund_tx now k e) closed,
            parts_of_eq (net-modify_escrow k (resolve_as EscrowStatus.expired now) paid),
            net-unhold e.requester_id (e.amount + e.fee_amount) db,
          ))
  ]

  net-pay_provider :
      (now k : ℕ) (e : Escrow) (db : Db R)
      → is_some (find e.requester_id db.balances) ≡ true
      → is_some (find e.provider_id db.balances) ≡ true
      → net (pay_provider now k e db) +ℤ pos e.fee_amount ≈ net db
  unfolding pay_provider
  net-pay_provider now k e db hr hp =
      let paid =
        modify_balance e.provider_id (earn e.amount)
          (modify_balance e.requester_id (spend_held (e.amount + e.fee_amount)) db) in
      let stamp = λ (x : Escrow). record x { resolved_at = some now } in
      omega (
        int_laws,
        net-add_transaction (release_tx now k e) (modify_escrow k stamp paid),
        parts_of_eq (net-modify_escrow k stamp paid),
        net-pay_out e.requester_id e.provider_id e.amount (e.amount + e.fee_amount) db hr hp,
      )

  -- A default judgment for a provider, where the parties are two accounts with balances, takes
  -- amount and fee out of what is held from the requester and counts them as spent, pays the
  -- provider the amount alone, and leaves the collected fees as they were, so the fee leaves the
  -- books.
  pub pay_provider_loses_fee :
      (now k : ℕ) (e : Escrow) (db : Db R) (b c : Balance)
      → find e.requester_id db.balances ≡ some b
      → find e.provider_id db.balances ≡ some c
      → e.requester_id ≢ e.provider_id
      → (find e.requester_id (pay_provider now k e db).balances
          ≡ some (record b {
            held_in_escrow = b.held_in_escrow -ℤ pos (e.amount + e.fee_amount);
            total_spent = b.total_spent + (e.amount + e.fee_amount);
          }))
        × (find e.provider_id (pay_provider now k e db).balances
            ≡ some (record c {
              available = c.available +ℤ pos e.amount;
              total_earned = c.total_earned + e.amount;
            }))
        × (collected (pay_provider now k e db).transactions ≡ collected db.transactions)
        × (net (pay_provider now k e db) +ℤ pos e.fee_amount ≈ net db)
  unfolding pay_provider modify_balance modify_escrow add_transaction collected
  pay_provider_loses_fee now k e db b c hr hp apart =
      let spend = spend_held (e.amount + e.fee_amount) in
      let spent = modify e.requester_id spend db.balances in
      (
        find-modify_ne e.requester_id e.provider_id (earn e.amount) spent apart
            ∙ find-modify_self e.requester_id spend db.balances b hr,
        find-modify_self e.provider_id (earn e.amount) spent c (
            find-modify_ne e.provider_id e.requester_id spend db.balances (λ q. apart (sym q))
            ∙ hp),
        omega arith,
        net-pay_provider now k e db (ap is_some hr) (ap is_some hp),
      )

  pub net-release_escrow :
      (now k : ℕ) (e : Escrow) (db : Db R) → net (release_escrow now k e db) ≤ℤ net db
  unfolding release_escrow
  net-release_escrow now k e db = elim (Option-cases (find e.requester_id db.balances)) [
    | inl q ↦ rw (q, release_escrow) (omega arith)
    | inr (b, q) ↦ elim (Option-cases (find e.provider_id db.balances)) [
      | inl q' ↦ rw (q, q', release_escrow) (omega arith)
      | inr (b', q') ↦
          rw (q, q', release_escrow)
            (omega (int_laws, net-pay_provider now k e db (ap is_some q) (ap is_some q')))
    ]
  ]

  -- Expiring held escrows neither makes nor loses money.
  pub net-expire_stale_held : (now : ℕ) (db : Db R) → net (expire_stale_held now db) ≡ net db
  unfolding expire_stale_held
  net-expire_stale_held now db =
      for_each-keeps (λ d. net d ≡ net db) (refund_escrow now)
        (λ k e d _ h. net-refund_escrow now k e d ∙ h) (stale_held now db) db refl

  -- Expiring disputes neither makes nor loses money.
  pub net-expire_stale_disputes :
      (now : ℕ) (db : Db R) → net (expire_stale_disputes now db) ≡ net db
  unfolding expire_stale_disputes
  net-expire_stale_disputes now db =
      for_each-keeps (λ d. net d ≡ net db) (refund_escrow now)
        (λ k e d _ h. net-refund_escrow now k e d ∙ h) (stale_disputes now db) db refl

  net-close_window : (now k : ℕ) (e : Escrow) (db : Db R) → net (close_window now k e db) ≤ℤ net db
  unfolding close_window default_judgment
  net-close_window now k e db =
      elim (Bool-cases (contains (respondent e) (submitter_ids k db.evidence))) [
        | inl answered ↦
            rw (answered, close_window)
              (omega (
                arith,
                parts_of_eq
                    (net-modify_escrow k (λ x. record x { status = EscrowStatus.disputed }) db),
              ))
        | inr silent ↦ elim (Bool-cases (respondent e == e.provider_id)) [
          | inl for_requester ↦
              let judged = refund_escrow now k e db in
              rw (silent, close_window, for_requester, default_judgment)
                (omega (
                  arith,
                  parts_of_eq (net-modify_escrow k (resolve_as EscrowStatus.refunded now) judged),
                  parts_of_eq (net-refund_escrow now k e db),
                ))
          | inr for_provider ↦
              let judged = release_escrow now k e db in
              rw (silent, close_window, for_provider, default_judgment)
                (omega (
                  arith,
                  parts_of_eq (net-modify_escrow k (resolve_as EscrowStatus.released now) judged),
                  net-release_escrow now k e db,
                ))
        ]
      ]

  -- Closing evidence windows makes no money.
  pub net-expire_evidence_windows :
      (now : ℕ) (db : Db R) → net (expire_evidence_windows now db) ≤ℤ net db
  unfolding expire_evidence_windows
  net-expire_evidence_windows now db =
      for_each-keeps (λ d. net d ≤ℤ net db) (close_window now)
        (λ k e d _ h. let step = net-close_window now k e d in omega (arith, step, h))
        (closed_windows now db) db (omega arith)
