-- ===== src/Exchange/Attestations/Lifecycle.antt =====
-- About the answers of the handlers of exchange/routes/attestations.py to one another.
use a2a_settlement.Base.{
  ℕ, ◌≡◌, refl, sym, ap, Bool, true, false, not, Option, none, some, arith, ◌==◌, ==_refl, ◌||◌,
}
use a2a_settlement.Int.{pos, ltb_ℤ, ◌-ℤ◌}
use a2a_settlement.Table.{find, modify}
use a2a_settlement.Table.Laws.{find-modify_self, find-append_self}
use a2a_settlement.Table.Keys.{find-append-some}
use a2a_settlement.Exchange.Errors.{
  ok, raise_if, or_raise, ◌>>=◌, ◌>>◌, Ensures-or_raise, Ensures-raise_if, Ensures-ok,
}
use a2a_settlement.Exchange.Models.{Balance}
use a2a_settlement.Exchange.Ledger.{debit, modify_balance, add_transaction}
use a2a_settlement.Exchange.Observer.{passed}
use a2a_settlement.Exchange.Attestations.{
  AttestationType, AttestationStatus, RevocationReason, Attestation, AttestationDb,
  AttestationSettings, AttestationStatusResponse, RenewAttestationResponse, is_closed, is_renewed,
  is_permanent, needs_signatures, is_expired_att, check_and_expire, revoke_row, renew_row,
  new_attestation, after_days, ttl_days, status_answer, get_attestation_status, revoke_attestation,
  renew_now, renew_attestation,
}
use a2a_settlement.Exchange.Attestations.Order.{fresh_modify}
use Prim.Native.String.{String}

unexpired : (now : ℕ) (ttl : Option ℕ) → passed now (after_days now ttl) ≡ false
unexpired now none = refl
unexpired now (some d) = ground arith

-- The row under a new id takes the place of an older one: its own account, type and metadata, with
-- the older one as parent, active and not expired.
abbrev pub IsSuccessor : ℕ → ℕ → Attestation → Option Attestation → Type 0
IsSuccessor now id old found =
    (att : Attestation) × (found ≡ some att)
    × (att.account_id ≡ old.account_id)
    × (att.attestation_type ≡ old.attestation_type)
    × (att.metadata_json ≡ old.metadata_json)
    × (att.status ≡ AttestationStatus.active)
    × (att.parent_attestation_id ≡ some id)
    × (passed now att.expires_at ≡ false)

module _ {R : Type 0} (s : AttestationSettings)
    (payload_hash : ℕ → AttestationType → ℕ → Option ℕ → String) where
  status-run :
      (now id : ℕ) (att : Attestation) (d : AttestationDb R)
      → s.aware ≡ true
      → find id d.attestations ≡ some att
      → get_attestation_status s payload_hash now id d
        ≡ ok (status_answer s payload_hash now id att d)
  unfolding get_attestation_status ◌>>=◌ ◌>>◌ raise_if or_raise
  status-run now id att d aware at = rw (get_attestation_status, at, or_raise, aware) refl

  -- The answer to a status query, by the row that is found.
  status_of_row :
      (now id : ℕ) (att : Attestation) (d : AttestationDb R)
      → s.aware ≡ true
      → find id d.attestations ≡ some att
      → (r : AttestationDb R × AttestationStatusResponse) × (get_attestation_status s payload_hash
            now id d
          ≡ ok r)
        × (r.1.row ≡ check_and_expire now att)
        × (is_expired_att (check_and_expire now att).status ≡ false → r.1.in_flight_grace ≡ false)
  unfolding status_answer
  status_of_row now id att d aware at = (
    status_answer s payload_hash now id att d,
    status-run now id att d aware at,
    refl,
    λ h. rw h refl,
  )

  -- What a revocation from `d` to `d'` was allowed by, and what a status query answers after it.
  abbrev pub Reported :
      ℕ → ℕ → ℕ → Bool → ℕ → RevocationReason → Bool → AttestationDb R → AttestationDb R → Type 0
  Reported now current later operator id reason signed d d' =
      (att : Attestation) × (q : AttestationDb R × AttestationStatusResponse) × (find id
          d.attestations
        ≡ some att)
      × (((att.account_id == current) || operator) ≡ true)
      × (is_closed att.status ≡ false)
      × (signed || not (needs_signatures att.attestation_type) ≡ true)
      × (get_attestation_status s payload_hash later id d' ≡ ok q)
      × (q.1.row.status ≡ AttestationStatus.revoked)
      × (q.1.row.revoked_at ≡ some now)
      × (q.1.row.revocation_reason ≡ some reason)
      × (q.1.row.account_id ≡ att.account_id)
      × (q.1.row.attestation_type ≡ att.attestation_type)
      × (q.1.row.expires_at ≡ att.expires_at)
      × (q.1.in_flight_grace ≡ false)

  -- A revocation that succeeds was asked by the owner or an operator, of an attestation neither
  -- revoked nor renewed, with signatures where its type needs them; on a database that keeps the
  -- offsets of instants, a status query at any time after it returns and reports the status
  -- revoked with time and reason, the row's account, type and expiry as they were, and no grace.
  pub revoked-Reported :
      (now current later : ℕ) (operator : Bool) (id : ℕ) (reason : RevocationReason) (signed : Bool)
      (d : AttestationDb R)
      → s.aware ≡ true
      → (r : AttestationDb R × ℕ)
      → revoke_attestation s payload_hash now current operator id reason signed d ≡ ok r
      → Reported now current later operator id reason signed d r.0
  unfolding revoke_attestation check_and_expire
  revoked-Reported now current later operator id reason signed d aware =
      Ensures-or_raise _ _ _ λ att at. Ensures-raise_if _ _ _ λ allowed.
        Ensures-raise_if _ _ _ λ not_closed. Ensures-raise_if _ _ _ λ signatures. Ensures-ok _ _ (
          let there = find-modify_self id (revoke_row now reason) d.attestations att at in
          let (answer, run, row, grace) =
            status_of_row later id (revoke_row now reason att)
              (record d { attestations = modify id (revoke_row now reason) d.attestations }) aware
              there in
          (
            att,
            answer,
            at,
            ground (arith, allowed),
            not_closed,
            ground (arith, signatures),
            run,
            ap (λ x. x.status) row,
            ap (λ x. x.revoked_at) row,
            ap (λ x. x.revocation_reason) row,
            ap (λ x. x.account_id) row,
            ap (λ x. x.attestation_type) row,
            ap (λ x. x.expires_at) row,
            grace refl,
          ))

  renew-run :
      (now current id new_id : ℕ) (d : AttestationDb R) (old : Attestation) (b : Balance)
      → find id d.attestations ≡ some old
      → (old.account_id == current) ≡ true
      → is_permanent old.attestation_type ≡ false
      → is_renewed old.status ≡ false
      → find current d.db.balances ≡ some b
      → ltb_ℤ b.available (pos s.renewal_fee) ≡ false
      → renew_attestation s payload_hash now current id new_id d
        ≡ ok (renew_now s payload_hash now current id new_id old d)
  unfolding renew_attestation ◌>>=◌ ◌>>◌ raise_if or_raise
  renew-run now current id new_id d old b at mine temporary open_status hb funds =
      rw (renew_attestation, at, or_raise, mine, temporary, open_status, hb, funds) refl

  -- The owner of an attestation that is not permanent and not yet renewed, also of a revoked
  -- one, can renew it under a fresh id with the fee at hand: the handler returns, the old row
  -- changes its status to renewed and nothing else, the new one has its account, type and
  -- metadata, is active, unexpired and names it as parent, and the fee is reported and leaves
  -- the available balance.
  pub renew_returns :
      (now current id new_id : ℕ) (d : AttestationDb R) (old : Attestation) (b : Balance)
      → find id d.attestations ≡ some old
      → find new_id d.attestations ≡ none
      → old.account_id ≡ current
      → is_permanent old.attestation_type ≡ false
      → is_renewed old.status ≡ false
      → find current d.db.balances ≡ some b
      → ltb_ℤ b.available (pos s.renewal_fee) ≡ false
      → (r : AttestationDb R × RenewAttestationResponse) × (renew_attestation s payload_hash now
            current id new_id d
          ≡ ok r)
        × (find id r.0.attestations ≡ some (record old { status = AttestationStatus.renewed }))
        × IsSuccessor now id old (find new_id r.0.attestations)
        × (find current r.0.db.balances
            ≡ some (record b { available = b.available -ℤ pos s.renewal_fee }))
        × (r.1.fee_charged ≡ s.renewal_fee)
  unfolding renew_now modify_balance add_transaction
  renew_returns now current id new_id d old b at fresh owner temporary open_status hb funds =
      let marked = modify id renew_row d.attestations in
      let att =
        new_attestation s payload_hash now current old.attestation_type (some id)
          old.metadata_json in
      (
        renew_now s payload_hash now current id new_id old d,
        renew-run now current id new_id d old b at (rw owner (==_refl current)) temporary
            open_status hb funds,
        find-append-some id new_id att (renew_row old) marked
            (find-modify_self id renew_row d.attestations old at),
        (
          att,
          find-append_self new_id att marked
              (fresh_modify new_id id renew_row d.attestations fresh),
          sym owner,
          refl,
          refl,
          refl,
          refl,
          unexpired now (ttl_days s old.attestation_type),
        ),
        find-modify_self current (debit s.renewal_fee) d.db.balances b hb,
        refl,
      )
