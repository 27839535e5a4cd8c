-- ===== src/Exchange/Attestations/Rows.antt =====
-- The attestation rows of exchange/models.py, and what exchange/routes/attestations.py computes from
-- a row.
use a2a_settlement.Base.{
  ℕ, ◌+◌, ◌-◌, ◌*◌, Bool, true, false, not, is_some, Option, none, some, List, [], ◌∷◌, ltb, ◌==◌,
  ◌&&◌, ◌||◌, if◌then◌else◌,
}
use a2a_settlement.Table.{Table, modify}
use a2a_settlement.Exchange.Models.{EscrowStatus, Escrow, Db}
use a2a_settlement.Exchange.Config.{hours}
use a2a_settlement.Exchange.Observer.{passed}
use Prim.Native.String.{String}

pub data AttestationType : Type 0 where
  identity reputation transaction capability : AttestationType

pub data AttestationStatus : Type 0 where
  active expired revoked renewed : AttestationStatus

pub data RevocationReason : Type 0 where
  key_compromise erroneous_issuance deregistration policy_violation : RevocationReason

pub record Attestation : Type 0 where
  pub account_id : ℕ
  pub attestation_type : AttestationType
  pub status : AttestationStatus
  pub issued_at : ℕ
  pub expires_at : Option ℕ
  pub revoked_at : Option ℕ
  pub revocation_reason : Option RevocationReason
  pub parent_attestation_id : Option ℕ
  pub payload_hash : String
  pub warning_sent_at : Option ℕ
  pub metadata_json : Option String

-- The tables that these handlers see.
pub record AttestationDb (R : Type 0) : Type 0 where
  pub db : Db R
  pub attestations : Table Attestation

-- `aware` tells of the database under `database_url` whether it gives instants back with their offset,
-- as PostgreSQL does and SQLite, the default, does not.
pub record AttestationSettings : Type 0 where
  pub aware : Bool
  pub ttl_identity_days : ℕ
  pub ttl_reputation_days : ℕ
  pub ttl_capability_days : ℕ
  pub grace_period_hours : ℕ
  pub renewal_fee : ℕ

-- AttestationResponse and AttestationStatusResponse: the row, with what is computed from it.
pub record AttestationResponse : Type 0 where
  pub id : ℕ
  pub row : Attestation
  pub ttl_remaining : Option ℕ

pub record AttestationStatusResponse : Type 0 where
  pub id : ℕ
  pub row : Attestation
  pub ttl_remaining : Option ℕ
  pub in_flight_grace : Bool

pub record RenewAttestationResponse : Type 0 where
  pub old_attestation_id : ℕ
  pub new_attestation : AttestationResponse
  pub fee_charged : ℕ

abbrev pub days : ℕ → ℕ
days n = hours (n * 24)

abbrev pub is_active_att : AttestationStatus → Bool
is_active_att AttestationStatus.active = true
is_active_att _ = false

abbrev pub is_expired_att : AttestationStatus → Bool
is_expired_att AttestationStatus.expired = true
is_expired_att _ = false

abbrev pub is_renewed : AttestationStatus → Bool
is_renewed AttestationStatus.renewed = true
is_renewed _ = false

-- status in ("revoked", "renewed")
abbrev pub is_closed : AttestationStatus → Bool
is_closed AttestationStatus.revoked = true
is_closed AttestationStatus.renewed = true
is_closed _ = false

abbrev pub is_permanent : AttestationType → Bool
is_permanent AttestationType.transaction = true
is_permanent _ = false

-- attestation_type in ("identity", "capability")
abbrev pub needs_signatures : AttestationType → Bool
needs_signatures AttestationType.identity = true
needs_signatures AttestationType.capability = true
needs_signatures _ = false

-- attestation_type in ("reputation", "capability")
abbrev pub has_grace : AttestationType → Bool
has_grace AttestationType.reputation = true
has_grace AttestationType.capability = true
has_grace _ = false

-- `_TTL_MAP`: a number of days, or none.
abbrev pub ttl_days : AttestationSettings → AttestationType → Option ℕ
ttl_days s AttestationType.identity = some s.ttl_identity_days
ttl_days s AttestationType.reputation = some s.ttl_reputation_days
ttl_days s AttestationType.capability = some s.ttl_capability_days
ttl_days s AttestationType.transaction = none

-- `now + ttl_delta if ttl_delta else None`: an interval of length zero is false.
abbrev pub after_days : ℕ → Option ℕ → Option ℕ
after_days now none = none
after_days now (some d) = if d == 0 then none else some (now + days d)

unfoldable pub ttl_remaining : ℕ → Attestation → Option ℕ
ttl_remaining now att = elim (att.expires_at) [ none ↦ none | some t ↦ some (t - now) ]

abbrev pub to_response : ℕ → ℕ → Attestation → AttestationResponse
to_response now id att = record { id = id; row = att; ttl_remaining = ttl_remaining now att }

abbrev pub is_stale : ℕ → Attestation → Bool
is_stale now att = is_active_att att.status && passed now att.expires_at

abbrev pub expire : Attestation → Attestation
expire att = record att { status = AttestationStatus.expired }

-- `_check_and_expire` or `_ttl_remaining` meets an expiry without an offset: to compare it with the
-- clock, or to subtract the clock from it, is a `TypeError`, before anything is committed.
abbrev pub is_incomparable : AttestationSettings → Attestation → Bool
is_incomparable s att = not s.aware && is_some att.expires_at

-- Where the expiry can be compared: the handlers raise first where it cannot.
unfoldable pub check_and_expire : ℕ → Attestation → Attestation
check_and_expire now att = if is_stale now att then expire att else att

abbrev pub is_in_flight : ℕ → Escrow → Bool
is_in_flight account e =
    elim (e.status) [ EscrowStatus.held ↦ true | EscrowStatus.evidence_pending ↦ true | _ ↦ false ]
    && (e.requester_id == account || e.provider_id == account)

-- `_now() < grace_end` of an expired row, whose expiry is set.
abbrev pub in_grace : ℕ → ℕ → Option ℕ → Bool
in_grace now grace none = false
in_grace now grace (some t) = ltb now (t + grace)

abbrev pub revoke_row : ℕ → RevocationReason → Attestation → Attestation
revoke_row now reason att = record att {
  status = AttestationStatus.revoked;
  revoked_at = some now;
  revocation_reason = some reason;
}

abbrev pub renew_row : Attestation → Attestation
renew_row att = record att { status = AttestationStatus.renewed }

-- `payload_hash` is the digest of the canonical JSON of a new row's account, type, instant and
-- parent.
module _ (s : AttestationSettings)
    (payload_hash : ℕ → AttestationType → ℕ → Option ℕ → String) where
  abbrev pub new_attestation : ℕ → ℕ → AttestationType → Option ℕ → Option String → Attestation
  new_attestation now current type parent metadata = record {
    account_id = current;
    attestation_type = type;
    status = AttestationStatus.active;
    issued_at = now;
    expires_at = after_days now (ttl_days s type);
    revoked_at = none;
    revocation_reason = none;
    parent_attestation_id = parent;
    payload_hash = payload_hash current type now parent;
    warning_sent_at = none;
    metadata_json = metadata;
  }

-- The update of each of the rows under the given keys.
unfoldable pub modify_each :
    (Attestation → Attestation) → List ℕ → Table Attestation → Table Attestation
modify_each f [] t = t
modify_each f (k ∷ ks) t = modify_each f ks (modify k f t)
