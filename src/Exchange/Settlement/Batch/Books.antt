-- ===== src/Exchange/Settlement/Batch/Books.antt =====
-- About the books under `batch_create_escrow` of exchange/routes/settlement.py.
use a2a_settlement.Base.{ℕ, suc, ◌≡◌, refl, ap, ◌∙◌, true, List, [], ◌∷◌, ◌++◌, is_some}
use a2a_settlement.Int.{pos_part}
use a2a_settlement.Table.{find}
use a2a_settlement.Table.Keys.{UniqueKeys}
use a2a_settlement.Table.Laws.{is_some-find-modify}
use a2a_settlement.Exchange.Errors.{
  ok, Ensures-or_raise, Ensures-raise_if, Ensures-bind, Ensures-ok,
}
use a2a_settlement.Exchange.Models.{Escrow, Db}
use a2a_settlement.Exchange.Config.{Context}
use a2a_settlement.Exchange.Ledger.{net, gap, hold, modify_balance, add_escrow, add_transaction}
use a2a_settlement.Exchange.Kya.{check_kya_gate}
use a2a_settlement.Exchange.Guard.Keeps.{check-SameBooks, SameBooks-net, SameBooks-gap}
use a2a_settlement.Exchange.Observer.Conserves.{net-expire_stale_held}
use a2a_settlement.Exchange.Observer.Backing.{gap-expire_stale_held}
use a2a_settlement.Exchange.Settlement.Create.{EscrowResponse, open_escrow}
use a2a_settlement.Exchange.Settlement.Create.Books.{net-open_escrow, gap-open_escrow}
use a2a_settlement.Exchange.Settlement.Batch.{
  BatchEscrowItem, item_hold, batch_escrow, create_items, batch_create_escrow,
}

module _ {R : Type 0} (ctx : Context R) where
  known_after :
      (current id total : ℕ) (e : Escrow) (db : Db R)
      → is_some (find current (open_escrow ctx current id total e db).balances)
        ≡ is_some (find current db.balances)
  unfolding open_escrow add_transaction add_escrow modify_balance
  known_after current id total e db = is_some-find-modify current current (hold total) db.balances

  net-create_items :
      (current idx : ℕ) (created : List ℕ) (items : List (ℕ × BatchEscrowItem)) (db : Db R)
      → (r : Db R × List EscrowResponse) → create_items ctx current idx created items db ≡ ok r
      → net r.0 ≡ net db
  unfolding create_items
  net-create_items current idx created [] db = Ensures-ok _ _ refl
  net-create_items current idx created ((id, item) ∷ items) db = Ensures-or_raise _ _ _ λ p hp.
      Ensures-raise_if _ _ _ λ p_active. Ensures-raise_if _ _ _ λ kya. Ensures-bind _ _ λ deps hd.
        let gate = check_kya_gate ctx.settings db current item.provider_id (pos_part item.amount) in
        let e = batch_escrow ctx current item deps gate in
        Ensures-bind _ _ λ rest hr. Ensures-ok _ _ (
          net-create_items current (suc idx) (created ++ id ∷ []) items
            (open_escrow ctx current id (item_hold ctx item) e db) rest hr
          ∙ net-open_escrow ctx current id (item_hold ctx item) e db)

  gap-create_items :
      (current idx a : ℕ) (created : List ℕ) (items : List (ℕ × BatchEscrowItem)) (db : Db R)
      → is_some (find current db.balances) ≡ true
      → (r : Db R × List EscrowResponse) → create_items ctx current idx created items db ≡ ok r
      → gap a r.0 ≡ gap a db
  unfolding create_items
  gap-create_items current idx a created [] db known = Ensures-ok _ _ refl
  gap-create_items current idx a created ((id, item) ∷ items) db known =
      Ensures-or_raise _ _ _ λ p hp. Ensures-raise_if _ _ _ λ p_active.
        Ensures-raise_if _ _ _ λ kya. Ensures-bind _ _ λ deps hd.
          let gate =
            check_kya_gate ctx.settings db current item.provider_id (pos_part item.amount) in
          let e = batch_escrow ctx current item deps gate in
          Ensures-bind _ _ λ rest hr. Ensures-ok _ _ (
            gap-create_items current (suc idx) a (created ++ id ∷ []) items
              (open_escrow ctx current id (item_hold ctx item) e db)
              (known_after current id (item_hold ctx item) e db ∙ known) rest hr
            ∙ gap-open_escrow ctx a current id e db refl refl refl known)

  -- A batch that succeeds on a database with unique escrow ids neither makes nor loses money,
  -- and keeps every account's gap.
  pub batch_create_escrow-books :
      (current a : ℕ) (items : List (ℕ × BatchEscrowItem)) (rows : Db R)
      → UniqueKeys rows.escrows
      → (r : Db R × List EscrowResponse) → batch_create_escrow ctx current items rows ≡ ok r
      → (net r.0 ≡ net rows) × (gap a r.0 ≡ gap a rows)
  unfolding batch_create_escrow
  batch_create_escrow-books current a items rows keys = Ensures-or_raise _ _ _ λ b hb.
      Ensures-bind _ _ λ needed hn. Ensures-raise_if _ _ _ λ funds. Ensures-bind _ _ λ db' checked.
        λ r created.
          let same = check-SameBooks ctx.settings ctx.now current _ _ db' checked in
          (
            net-create_items current 0 [] items db' r created
                ∙ (SameBooks-net same ∙ net-expire_stale_held ctx.now rows),
            gap-create_items current 0 a [] items db' (rw same.balances (ap is_some hb)) r created
                ∙ (SameBooks-gap same a ∙ gap-expire_stale_held a ctx.now rows keys),
          )
