-- ===== src/Exchange/Settlement/Resolve/Stake.antt =====
-- About `_settle_dispute_stake` of exchange/routes/settlement.py.
use a2a_settlement.Base.{
  ℕ, ◌+◌, ◌≡◌, refl, ap, ◌∙◌, true, false, none, some, Option, arith, is_some, ◌==◌, ◌&&◌, ltb, inl,
  inr, Bool-cases, Option-cases, or_zero,
}
use a2a_settlement.Int.{pos, ◌+ℤ◌, ◌≈◌, int_laws, parts_of_eq}
use a2a_settlement.Table.{find}
use a2a_settlement.Table.Laws.{find-modify_self, is_some-find-modify}
use a2a_settlement.Exchange.Models.{StakeStatus, Escrow, TxType, Db}
use a2a_settlement.Exchange.Ledger.{
  net, gap, owed_by, drop_held, earn, modify_balance, modify_escrow, add_transaction,
}
use a2a_settlement.Exchange.Ledger.Net.{net-modify_balance, net-modify_escrow, net-add_transaction}
use a2a_settlement.Exchange.Ledger.Gap.{
  only, only_zero, gap-modify_balance, gap-modify_escrow, gap-add_transaction,
}
use a2a_settlement.Exchange.Settlement.Common.{movement}
use a2a_settlement.Exchange.Settlement.Common.Books.{net-repaid, gap-repaid}
use a2a_settlement.Exchange.Settlement.Resolve.{
  StakeRuling, is_forfeit, is_stake_held, counterparty, set_stake, forfeit_stake, give_back_stake,
  settle_filed_stake, settle_dispute_stake,
}

counterparty_known :
    {R : Type 0} (filer : ℕ) (e : Escrow) (db : Db R)
    → is_some (find e.requester_id db.balances) ≡ true
    → is_some (find e.provider_id db.balances) ≡ true
    → is_some (find (counterparty filer e) db.balances) ≡ true
counterparty_known filer e db hr hp = elim (Bool-cases (filer == e.requester_id)) [
  | inl same ↦ rw same hp
  | inr other ↦ rw other hr
]

module _ {R : Type 0} (now : ℕ) where
  net-forfeit_stake :
      (k filer stake : ℕ) (e : Escrow) (db : Db R)
      → is_some (find filer db.balances) ≡ true
      → is_some (find (counterparty filer e) db.balances) ≡ true
      → net (forfeit_stake now k filer stake e db) ≡ net db
  unfolding forfeit_stake modify_balance
  net-forfeit_stake k filer stake e db hf hc =
      let dropped = modify_balance filer (drop_held stake) db in
      let paid = modify_balance (counterparty filer e) (earn stake) dropped in
      let tx =
        movement now (some k) (some filer) (some (counterparty filer e)) stake
          TxType.dispute_stake_forfeit none in
      omega (
        int_laws,
        parts_of_eq
            (net-modify_escrow k (set_stake StakeStatus.stake_forfeited) (add_transaction tx paid)),
        net-add_transaction tx paid,
        net-modify_balance (counterparty filer e) stake 0 (earn stake) dropped (λ b. omega int_laws)
            (is_some-find-modify (counterparty filer e) filer (drop_held stake) db.balances ∙ hc),
        net-modify_balance filer 0 stake (drop_held stake) db (λ b. omega int_laws) hf,
      )

  net-give_back_stake :
      (k filer stake : ℕ) (e : Escrow) (db : Db R)
      → net (give_back_stake now k filer stake e db) ≡ net db
  unfolding give_back_stake modify_escrow add_transaction
  net-give_back_stake k filer stake e db =
      net-repaid k filer stake (set_stake StakeStatus.stake_returned) _ db (refl, refl)

  -- The stake's settlement neither makes nor loses money, where both parties have a balance.
  pub net-settle_dispute_stake :
      (k : ℕ) (e : Escrow) (ruling : Option StakeRuling) (db : Db R)
      → is_some (find e.requester_id db.balances) ≡ true
      → is_some (find e.provider_id db.balances) ≡ true
      → net (settle_dispute_stake now k e ruling db) ≡ net db
  unfolding settle_dispute_stake settle_filed_stake
  net-settle_dispute_stake k e ruling db hr hp = elim (Option-cases e.dispute_filed_by) [
    | inl q ↦ rw (q, settle_dispute_stake) refl
    | inr (filer, q) ↦
        let stake = or_zero e.dispute_stake_amount in
        elim (Bool-cases (ltb 0 stake && is_stake_held e.dispute_stake_status)) [
          | inr nothing_held ↦ rw (q, settle_dispute_stake, nothing_held) refl
          | inl staked ↦ elim (Option-cases (find filer db.balances)) [
            | inl unknown ↦ rw (q, settle_dispute_stake, staked, unknown, settle_filed_stake) refl
            | inr (b, known) ↦ elim (Bool-cases (is_forfeit ruling)) [
              | inl forfeited ↦
                  rw (q, settle_dispute_stake, staked, known, settle_filed_stake, forfeited)
                    (net-forfeit_stake k filer stake e db (ap is_some known)
                      (counterparty_known filer e db hr hp))
              | inr given_back ↦
                  rw (q, settle_dispute_stake, staked, known, settle_filed_stake, given_back)
                    (net-give_back_stake k filer stake e db)
            ]
          ]
        ]
  ]

  gap-forfeit_stake :
      (a k filer stake : ℕ) (e x : Escrow) (db : Db R)
      → is_some (find filer db.balances) ≡ true
      → is_some (find (counterparty filer e) db.balances) ≡ true
      → find k db.escrows ≡ some x
      → gap a (forfeit_stake now k filer stake e db)
          +ℤ pos (owed_by a (set_stake StakeStatus.stake_forfeited x))
          +ℤ pos (only a filer stake)
        ≈ gap a db +ℤ pos (owed_by a x)
  unfolding forfeit_stake modify_balance add_transaction
  gap-forfeit_stake a k filer stake e x db hf hc at =
      let dropped = modify_balance filer (drop_held stake) db in
      let paid = modify_balance (counterparty filer e) (earn stake) dropped in
      let tx =
        movement now (some k) (some filer) (some (counterparty filer e)) stake
          TxType.dispute_stake_forfeit none in
      omega (
        int_laws,
        gap-modify_escrow a k (set_stake StakeStatus.stake_forfeited) (add_transaction tx paid) x
            at,
        parts_of_eq (gap-add_transaction a tx paid),
        gap-modify_balance a (counterparty filer e) 0 0 (earn stake) dropped (λ b. omega int_laws)
            (is_some-find-modify (counterparty filer e) filer (drop_held stake) db.balances ∙ hc),
        gap-modify_balance a filer 0 stake (drop_held stake) db (λ b. omega int_laws) hf,
        only_zero a filer,
        only_zero a (counterparty filer e),
      )

  gap-give_back_stake :
      (a k filer stake : ℕ) (e x : Escrow) (db : Db R)
      → is_some (find filer db.balances) ≡ true
      → find k db.escrows ≡ some x
      → gap a (give_back_stake now k filer stake e db)
          +ℤ pos (owed_by a (set_stake StakeStatus.stake_returned x))
          +ℤ pos (only a filer stake)
        ≈ gap a db +ℤ pos (owed_by a x)
  unfolding give_back_stake modify_escrow add_transaction
  gap-give_back_stake a k filer stake e x db hf at =
      gap-repaid k filer stake (set_stake StakeStatus.stake_returned) _ db a x hf at

-- The escrow once its stake is settled: the same funds, and an account's gap is what it was.
pub record StakeSettled {R : Type 0} (a k : ℕ) (x : Escrow) (db db' : Db R) : Type 0 where
  pub settled : Escrow
  pub at : find k db'.escrows ≡ some settled
  pub requester : settled.requester_id ≡ x.requester_id
  pub amount : settled.amount ≡ x.amount
  pub fee_amount : settled.fee_amount ≡ x.fee_amount
  pub status : settled.status ≡ x.status
  pub same_gap : gap a db' ≡ gap a db

stake_owed :
    (a filer : ℕ) (s : StakeStatus) (e : Escrow)
    → is_stake_held (some s) ≡ false
    → e.dispute_filed_by ≡ some filer
    → is_stake_held e.dispute_stake_status ≡ true
    → owed_by a e ≡ owed_by a (set_stake s e) + only a filer (or_zero e.dispute_stake_amount)
unfolding is_stake_held
stake_owed a filer s e other filed h = ground (arith, h, filed, other)

module _ {R : Type 0} (now a k : ℕ) (e : Escrow) (db : Db R) (at_k : find k db.escrows ≡ some e)
    (hr : is_some (find e.requester_id db.balances) ≡ true)
    (hp : is_some (find e.provider_id db.balances) ≡ true) where
  nothing_settled : StakeSettled a k e db db
  nothing_settled = record {
    settled = e;
    at = at_k;
    requester = refl;
    amount = refl;
    fee_amount = refl;
    status = refl;
    same_gap = refl;
  }

  gap_forfeited :
      (filer : ℕ)
      → e.dispute_filed_by ≡ some filer
      → is_stake_held e.dispute_stake_status ≡ true
      → is_some (find filer db.balances) ≡ true
      → gap a (forfeit_stake now k filer (or_zero e.dispute_stake_amount) e db) ≡ gap a db
  unfolding is_stake_held
  gap_forfeited filer filed held known = omega (
    int_laws,
    gap-forfeit_stake now a k filer (or_zero e.dispute_stake_amount) e e db known
        (counterparty_known filer e db hr hp) at_k,
    stake_owed a filer StakeStatus.stake_forfeited e refl filed held,
  )

  gap_given_back :
      (filer : ℕ)
      → e.dispute_filed_by ≡ some filer
      → is_stake_held e.dispute_stake_status ≡ true
      → is_some (find filer db.balances) ≡ true
      → gap a (give_back_stake now k filer (or_zero e.dispute_stake_amount) e db) ≡ gap a db
  unfolding is_stake_held
  gap_given_back filer filed held known = omega (
    int_laws,
    gap-give_back_stake now a k filer (or_zero e.dispute_stake_amount) e e db known at_k,
    stake_owed a filer StakeStatus.stake_returned e refl filed held,
  )

  settled_filed :
      (filer : ℕ) (ruling : Option StakeRuling)
      → e.dispute_filed_by ≡ some filer
      → is_stake_held e.dispute_stake_status ≡ true
      → StakeSettled a k e db
          (settle_filed_stake now k filer (or_zero e.dispute_stake_amount) e ruling db)
  unfolding settle_filed_stake forfeit_stake give_back_stake modify_escrow add_transaction
      modify_balance
  settled_filed filer ruling filed held = elim (Option-cases (find filer db.balances)) [
    | inl unknown ↦ rw (unknown, settle_filed_stake) nothing_settled
    | inr (b, known) ↦ elim (Bool-cases (is_forfeit ruling)) [
      | inl forfeited ↦
          rw (known, settle_filed_stake, forfeited)
            (record {
              settled = set_stake StakeStatus.stake_forfeited e;
              at = find-modify_self k (set_stake StakeStatus.stake_forfeited) db.escrows e at_k;
              requester = refl;
              amount = refl;
              fee_amount = refl;
              status = refl;
              same_gap = gap_forfeited filer filed held (ap is_some known);
            })
      | inr given_back ↦
          rw (known, settle_filed_stake, given_back)
            (record {
              settled = set_stake StakeStatus.stake_returned e;
              at = find-modify_self k (set_stake StakeStatus.stake_returned) db.escrows e at_k;
              requester = refl;
              amount = refl;
              fee_amount = refl;
              status = refl;
              same_gap = gap_given_back filer filed held (ap is_some known);
            })
    ]
  ]

  -- The settlement of a dispute's stake leaves the escrow's funds and every account's gap alone.
  pub stake_settled :
      (ruling : Option StakeRuling) → StakeSettled a k e db (settle_dispute_stake now k e ruling db)
  unfolding settle_dispute_stake
  stake_settled ruling = elim (Option-cases e.dispute_filed_by) [
    | inl q ↦ simp (q, settle_dispute_stake) nothing_settled
    | inr (filer, q) ↦ elim (Bool-cases (ltb 0 (or_zero e.dispute_stake_amount))) [
      | inl some_stake ↦ elim (Bool-cases (is_stake_held e.dispute_stake_status)) [
        | inl held ↦
            simp (q, settle_dispute_stake, some_stake, held) (settled_filed filer ruling q held)
        | inr over ↦ simp (q, settle_dispute_stake, some_stake, over) nothing_settled
      ]
      | inr no_stake ↦ simp (q, settle_dispute_stake, no_stake) nothing_settled
    ]
  ]
