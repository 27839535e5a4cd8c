-- ===== src/Exchange/Settlement/Instant/Books.antt =====
-- About the books under `instant_settle` of exchange/routes/settlement.py.
use a2a_settlement.Base.{ℕ, ◌+◌, ◌≡◌, ap, ◌∙◌, true, none, some, is_some}
use a2a_settlement.Int.{int_laws, parts_of_eq}
use a2a_settlement.Table.{find}
use a2a_settlement.Table.Laws.{is_some-find-modify}
use a2a_settlement.Exchange.Errors.{
  ok, Ensures-or_raise, Ensures-raise_if, Ensures-ok, Ensures-bind,
}
use a2a_settlement.Exchange.Models.{SelfDealingClass, TxType, Db}
use a2a_settlement.Exchange.Config.{Context}
use a2a_settlement.Exchange.Fees.{fee_amount}
use a2a_settlement.Exchange.Ledger.{
  net, gap, spend_available, earn, modify_balance, add_transaction,
}
use a2a_settlement.Exchange.Ledger.Net.{net-modify_balance, net-modify_account, net-add_transaction}
use a2a_settlement.Exchange.Ledger.Gap.{
  only_zero, gap-modify_balance, gap-modify_account, gap-add_transaction,
}
use a2a_settlement.Exchange.Guard.Keeps.{SameBooks-net, SameBooks-gap, check-SameBooks}
use a2a_settlement.Exchange.Settlement.Common.{movement}
use a2a_settlement.Exchange.Settlement.Common.Books.{net-add_fee, gap-add_fee}
use a2a_settlement.Exchange.Settlement.Instant.{InstantSettleResponse, settle_now, instant_settle}

module _ {R : Type 0} (ctx : Context R) (current provider amount fee : ℕ) (db : Db R)
    (hr : is_some (find current db.balances) ≡ true)
    (hp : is_some (find provider db.balances) ≡ true) where
  abbrev class : SelfDealingClass
  class = ctx.classify current provider

  abbrev spent : Db R
  spent = modify_balance current (spend_available (amount + fee)) db

  abbrev moved : Db R
  moved = modify_balance provider (earn amount) spent

  abbrev logged : Db R
  logged =
      add_transaction
        (movement ctx.now none (some current) (some provider) amount TxType.instant_settlement
          (some class))
        moved

  net-settle_now : net (settle_now ctx current provider amount fee db) ≡ net db
  unfolding settle_now modify_balance
  net-settle_now =
      net-modify_account provider _ _
      ∙ omega (
        int_laws,
        net-add_fee ctx.now none current fee (some class) logged,
        net-add_transaction
            (movement ctx.now none (some current) (some provider) amount TxType.instant_settlement
              (some class))
            moved,
        net-modify_balance provider amount 0 (earn amount) spent (λ b. omega int_laws)
            (is_some-find-modify provider current (spend_available (amount + fee)) db.balances
              ∙ hp),
        net-modify_balance current 0 (amount + fee) (spend_available (amount + fee)) db
            (λ b. omega int_laws) hr,
      )

  gap-settle_now : (a : ℕ) → gap a (settle_now ctx current provider amount fee db) ≡ gap a db
  unfolding settle_now modify_balance
  gap-settle_now a =
      gap-modify_account a provider _ _
      ∙ omega (
        int_laws,
        parts_of_eq (gap-add_fee a ctx.now none current fee (some class) logged),
        parts_of_eq (
            gap-add_transaction a
              (movement ctx.now none (some current) (some provider) amount TxType.instant_settlement
                (some class))
              moved),
        gap-modify_balance a provider 0 0 (earn amount) spent (λ b. omega int_laws)
            (is_some-find-modify provider current (spend_available (amount + fee)) db.balances
              ∙ hp),
        gap-modify_balance a current 0 0 (spend_available (amount + fee)) db (λ b. omega int_laws)
            hr,
        only_zero a provider,
        only_zero a current,
      )

module _ {R : Type 0} (ctx : Context R) where
  -- An instant settlement that succeeds neither makes nor loses money, and keeps every account's
  -- gap.
  pub instant_settle-books :
      (current provider amount a : ℕ) (db : Db R) (r : Db R × InstantSettleResponse)
      → instant_settle ctx current provider amount db ≡ ok r
      → (net r.0 ≡ net db) × (gap a r.0 ≡ gap a db)
  unfolding instant_settle
  instant_settle-books current provider amount a db = Ensures-raise_if _ _ _ λ positive.
      Ensures-raise_if _ _ _ λ small. Ensures-raise_if _ _ _ λ other_party.
        Ensures-or_raise _ _ _ λ x hx. Ensures-raise_if _ _ _ λ reputable.
          Ensures-or_raise _ _ _ λ y hy. Ensures-raise_if _ _ _ λ active.
            Ensures-raise_if _ _ _ λ kya. Ensures-or_raise _ _ _ λ rb hr.
              Ensures-raise_if _ _ _ λ funds. Ensures-or_raise _ _ _ λ pb hp.
                Ensures-bind _ _ λ db' checked.
                  let same = check-SameBooks ctx.settings ctx.now current _ db db' checked in
                  let fee = fee_amount ctx.settings amount in
                  let hr' : is_some (find current db'.balances) ≡ true =
                    rw same.balances (ap is_some hr) in
                  let hp' : is_some (find provider db'.balances) ≡ true =
                    rw same.balances (ap is_some hp) in
                  Ensures-ok _ _ (
                    net-settle_now ctx current provider amount fee db' hr' hp' ∙ SameBooks-net same,
                    gap-settle_now ctx current provider amount fee db' hr' hp' a
                        ∙ SameBooks-gap same a,
                  )
