-- ===== src/Exchange/Observer/Defs.antt =====
-- exchange/observers.py on the database. A session does not flush before it commits
-- (`autoflush=False`), so the rows that a query selects are those at the start of the loop.
use a2a_settlement.Base.{
  ℕ, ◌+◌, Bool, true, false, not, Option, none, some, List, [], ◌∷◌, ltb, leb, ◌==◌, ◌&&◌,
  if◌then◌else◌, contains,
}
use a2a_settlement.Table.{find, select}
use a2a_settlement.Exchange.Models.{
  EscrowStatus, held, evidence_pending, disputed, expired, released, refunded, Escrow, TxType,
  Transaction, EvidenceSubmission, Db,
}
use a2a_settlement.Exchange.Config.{Settings, minutes}
use a2a_settlement.Exchange.Ledger.{
  unhold, spend_held, earn, modify_balance, modify_escrow, add_transaction,
}

abbrev pub is_held : EscrowStatus → Bool
is_held held = true
is_held _ = false

abbrev pub is_disputed : EscrowStatus → Bool
is_disputed disputed = true
is_disputed _ = false

abbrev pub is_evidence_pending : EscrowStatus → Bool
is_evidence_pending evidence_pending = true
is_evidence_pending _ = false

-- A nullable instant that is set and lies before `now`.
abbrev pub passed : ℕ → Option ℕ → Bool
passed now none = false
passed now (some t) = ltb t now

abbrev pub refund_tx : ℕ → ℕ → Escrow → Transaction
refund_tx now k e = record {
  escrow_id = some k;
  from_account = none;
  to_account = some e.requester_id;
  amount = e.amount + e.fee_amount;
  tx_type = TxType.escrow_refund;
  self_dealing_class = none;
  fee_class = none;
  created_at = now;
}

abbrev pub resolve_as : EscrowStatus → ℕ → Escrow → Escrow
resolve_as status now e = record e { status = status; resolved_at = some now }

abbrev is_other : Option ℕ → ℕ → Bool
is_other none a = true
is_other (some filer) a = not (filer == a)

-- The party who did not file the dispute.
abbrev pub respondent : Escrow → ℕ
respondent e = if is_other e.dispute_filed_by e.requester_id then e.requester_id else e.provider_id

-- `submitter_id`s of the submissions for an escrow.
abbrev pub submitter_ids : ℕ → List EvidenceSubmission → List ℕ
submitter_ids k [] = []
submitter_ids k (s ∷ ss) =
    if s.escrow_id == k then s.submitter_id ∷ submitter_ids k ss else submitter_ids k ss

abbrev pub release_tx : ℕ → ℕ → Escrow → Transaction
release_tx now k e = record {
  escrow_id = some k;
  from_account = some e.requester_id;
  to_account = some e.provider_id;
  amount = e.amount;
  tx_type = TxType.escrow_release;
  self_dealing_class = none;
  fee_class = none;
  created_at = now;
}

abbrev unset : Option ℕ → Bool
unset none = true
unset (some _) = false

module _ {R : Type 0} where
  -- `for escrow in rows: body(escrow)`, over the session's objects with these ids.
  unfoldable pub for_each : (ℕ → Escrow → Db R → Db R) → List ℕ → Db R → Db R
  for_each body [] db = db
  for_each body (k ∷ ks) db =
      for_each body ks (elim (find k db.escrows) [ none ↦ db | some e ↦ body k e db ])

  -- `_refund_escrow`
  unfoldable pub refund_escrow : ℕ → ℕ → Escrow → Db R → Db R
  refund_escrow now k e db = elim (find e.requester_id db.balances) [
    | none ↦ db
    | some _ ↦ add_transaction (refund_tx now k e) (
        modify_escrow k (resolve_as expired now)
          (modify_balance e.requester_id (unhold (e.amount + e.fee_amount)) db))
  ]

  unfoldable pub stale_held : ℕ → Db R → List ℕ
  stale_held now db = select (λ e. is_held e.status && ltb e.expires_at now) db.escrows

  -- `expire_stale_held`, which `expire_stale_escrows` of exchange/tasks.py calls.
  unfoldable pub expire_stale_held : ℕ → Db R → Db R
  unfolding stale_held
  expire_stale_held now db = for_each (refund_escrow now) (stale_held now db) db

  unfoldable pub stale_disputes : ℕ → Db R → List ℕ
  stale_disputes now db =
      select (λ e. is_disputed e.status && passed now e.dispute_expires_at) db.escrows

  -- `expire_stale_disputes`
  unfoldable pub expire_stale_disputes : ℕ → Db R → Db R
  unfolding stale_disputes
  expire_stale_disputes now db = for_each (refund_escrow now) (stale_disputes now db) db

  unfoldable pub pay_provider : ℕ → ℕ → Escrow → Db R → Db R
  pay_provider now k e db = add_transaction (release_tx now k e) (
      modify_escrow k (λ x. record x { resolved_at = some now })
        (modify_balance e.provider_id (earn e.amount)
          (modify_balance e.requester_id (spend_held (e.amount + e.fee_amount)) db)))

  -- `_release_escrow`, a default judgment for the provider.
  unfoldable pub release_escrow : ℕ → ℕ → Escrow → Db R → Db R
  release_escrow now k e db = elim (find e.requester_id db.balances) [
    | none ↦ db
    | some _ ↦ elim (find e.provider_id db.balances) [
      | none ↦ db
      | some _ ↦ pay_provider now k e db
    ]
  ]

  unfoldable pub default_judgment : ℕ → ℕ → Escrow → Db R → Db R
  default_judgment now k e db =
      if respondent e == e.provider_id
      then modify_escrow k (resolve_as refunded now) (refund_escrow now k e db)
      else modify_escrow k (resolve_as released now) (release_escrow now k e db)

  -- The body of the loop in `expire_evidence_windows`.
  unfoldable pub close_window : ℕ → ℕ → Escrow → Db R → Db R
  close_window now k e db =
      if contains (respondent e) (submitter_ids k db.evidence)
      then modify_escrow k (λ x. record x { status = disputed }) db
      else default_judgment now k e db

  unfoldable pub closed_windows : ℕ → Db R → List ℕ
  closed_windows now db =
      select (λ e. is_evidence_pending e.status && passed now e.evidence_window_closes_at)
        db.escrows

  -- `expire_evidence_windows`
  unfoldable pub expire_evidence_windows : ℕ → Db R → Db R
  unfolding closed_windows
  expire_evidence_windows now db = for_each (close_window now) (closed_windows now db) db

  unfoldable pub mark_warned : ℕ → ℕ → Escrow → Db R → Db R
  mark_warned now k e db = modify_escrow k (λ x. record x { warning_sent_at = some now }) db

  -- `warn_expiring_soon`
  unfoldable pub warn_expiring_soon : Settings R → ℕ → Db R → Db R
  warn_expiring_soon st now db =
      if leb st.expiry_warning_minutes 0
      then db
      else for_each (mark_warned now)
          (select
            (λ e.
              is_held e.status
              && (leb e.expires_at (now + minutes st.expiry_warning_minutes)
                  && (ltb now e.expires_at && unset e.warning_sent_at)))
            db.escrows)
          db

  -- The escrow part of `sweep`, in its order.
  unfoldable pub sweep : Settings R → ℕ → Db R → Db R
  sweep st now db =
      warn_expiring_soon st now
        (expire_evidence_windows now (expire_stale_disputes now (expire_stale_held now db)))
