-- ===== src/Exchange/Attestations/Handlers.antt =====
-- Issue, status, revocation and renewal of exchange/routes/attestations.py. `_now()` is called more
-- than once in a request; all calls are one instant here.
use a2a_settlement.Base.{ℕ, Bool, not, Option, none, some, ◌==◌, ◌&&◌}
use a2a_settlement.Int.{pos, ltb_ℤ}
use a2a_settlement.Table.{find, modify, append}
use a2a_settlement.Exchange.Errors.{
  Result, ok, http, raise_if, or_raise, ◌>>=◌, ◌>>◌, attestation_not_found, not_permitted,
  wrong_status, signatures_required, permanent_attestation, insufficient_balance, naive_datetime,
}
use a2a_settlement.Exchange.Models.{TxType}
use a2a_settlement.Exchange.Config.{hours}
use a2a_settlement.Exchange.Ledger.{modify_balance, add_transaction, debit}
use a2a_settlement.Exchange.Settlement.Common.{movement}
use a2a_settlement.Exchange.Settlement.Create.{some_row}
use Prim.Native.String.{String}
use a2a_settlement.Exchange.Attestations.Rows.{
  AttestationType, RevocationReason, Attestation, AttestationDb, AttestationSettings,
  AttestationResponse, AttestationStatusResponse, RenewAttestationResponse, is_expired_att,
  is_renewed, is_closed, is_permanent, needs_signatures, has_grace, ttl_remaining, to_response,
  check_and_expire, is_incomparable, is_in_flight, in_grace, revoke_row, renew_row, new_attestation,
}

module _ {R : Type 0} (s : AttestationSettings)
    (payload_hash : ℕ → AttestationType → ℕ → Option ℕ → String) where
  unfoldable pub issue_attestation :
      ℕ
      → ℕ
      → ℕ
      → AttestationType
      → Option String
      → AttestationDb R
      → AttestationDb R × AttestationResponse
  issue_attestation now current id type metadata d =
      let att = new_attestation s payload_hash now current type none metadata in
      (record d { attestations = append id att d.attestations }, to_response now id att)

  -- The answer about the row that was found.
  unfoldable pub status_answer :
      ℕ → ℕ → Attestation → AttestationDb R → AttestationDb R × AttestationStatusResponse
  unfolding check_and_expire
  status_answer now id att d =
      let att' = check_and_expire now att in
      (
        record d { attestations = modify id (check_and_expire now) d.attestations },
        record {
          id = id;
          row = att';
          ttl_remaining = ttl_remaining now att';
          in_flight_grace =
              is_expired_att att'.status
              && (has_grace att'.attestation_type
                  && (in_grace now (hours s.grace_period_hours) att'.expires_at
                      && some_row (is_in_flight att'.account_id) d.db.escrows));
        },
      )

  unfoldable pub get_attestation_status :
      ℕ → ℕ → AttestationDb R → Result (AttestationDb R × AttestationStatusResponse)
  unfolding status_answer
  get_attestation_status now id d = do
    att ← or_raise (find id d.attestations) (http 404 attestation_not_found)
    raise_if (is_incomparable s att) (http 500 naive_datetime)
    ok (status_answer now id att d)

  -- `signed` tells whether the request carries signatures.
  unfoldable pub revoke_attestation :
      ℕ → ℕ → Bool → ℕ → RevocationReason → Bool → AttestationDb R → Result (AttestationDb R × ℕ)
  revoke_attestation now current operator id reason signed d = do
    att ← or_raise (find id d.attestations) (http 404 attestation_not_found)
    raise_if (not (att.account_id == current) && not operator) (http 403 not_permitted)
    raise_if (is_closed att.status) (http 400 wrong_status)
    raise_if (needs_signatures att.attestation_type && not signed) (http 400 signatures_required)
    ok (record d { attestations = modify id (revoke_row now reason) d.attestations }, now)

  -- The changes of a renewal once every check has passed; `new_id` is the new row's UUID.
  unfoldable pub renew_now :
      ℕ → ℕ → ℕ → ℕ → Attestation → AttestationDb R → AttestationDb R × RenewAttestationResponse
  renew_now now current id new_id old d =
      let att =
        new_attestation s payload_hash now current old.attestation_type (some id)
          old.metadata_json in
      let paid = modify_balance current (debit s.renewal_fee) d.db in
      (
        record {
          db =
              add_transaction
                (movement now none (some current) none s.renewal_fee TxType.attestation_renewal_fee
                  none)
                paid;
          attestations = append new_id att (modify id renew_row d.attestations);
        },
        record {
          old_attestation_id = id;
          new_attestation = to_response now new_id att;
          fee_charged = s.renewal_fee;
        },
      )

  unfoldable pub renew_attestation :
      ℕ → ℕ → ℕ → ℕ → AttestationDb R → Result (AttestationDb R × RenewAttestationResponse)
  unfolding renew_now
  renew_attestation now current id new_id d = do
    old ← or_raise (find id d.attestations) (http 404 attestation_not_found)
    raise_if (not (old.account_id == current)) (http 403 not_permitted)
    raise_if (is_permanent old.attestation_type) (http 400 permanent_attestation)
    raise_if (is_renewed old.status) (http 400 wrong_status)
    bal ← or_raise (find current d.db.balances) (http 400 insufficient_balance)
    raise_if (ltb_ℤ bal.available (pos s.renewal_fee)) (http 400 insufficient_balance)
    ok (renew_now now current id new_id old d)
