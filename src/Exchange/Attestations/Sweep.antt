-- ===== src/Exchange/Attestations/Sweep.antt =====
-- The attestation part of the sweep of exchange/observers.py.
use a2a_settlement.Base.{
  ℕ, Bool, false, not, Option, none, some, [], ◌∷◌, ◌&&◌, ◌||◌, if◌then◌else◌,
}
use a2a_settlement.Int.{ℤ, pos, ◌-ℤ◌}
use a2a_settlement.Table.{Table, select}
use a2a_settlement.Exchange.Errors.{Result, ok, http, raise_if, ◌>>◌, naive_datetime}
use a2a_settlement.Exchange.Attestations.Rows.{
  Attestation, AttestationDb, AttestationSettings, is_active_att, is_stale, expire, modify_each,
}

unfoldable pub expire_stale_attestations : {R : Type 0} → ℕ → AttestationDb R → AttestationDb R
unfolding modify_each
expire_stale_attestations now d = record d {
  attestations = modify_each expire (select (is_stale now) d.attestations) d.attestations;
}

-- Float arithmetic of `warn_expiring_attestations`: `total_seconds` of a difference of instants in
-- microseconds, and the operations on it.
pub record Ratios (R : Type 0) : Type 0 where
  pub total_seconds : ℤ → R
  pub number : ℕ → R
  pub div : R → R → R
  pub mul : R → R → R
  pub le : R → R → Bool

abbrev pub unwarned : Attestation → Option ℕ
unwarned att = elim (att.warning_sent_at) [
  | some t ↦ none
  | none ↦ if is_active_att att.status then att.expires_at else none
]

abbrev pub warn : ℕ → Attestation → Attestation
warn now att = record att { warning_sent_at = some now }

module _ {R : Type 0} (F : Ratios R) where
  abbrev pub has_lifetime : Option ℕ → ℕ → Bool
  has_lifetime none issued_at = false
  has_lifetime (some t) issued_at =
      not (F.le (F.total_seconds (pos t -ℤ pos issued_at)) (F.number 0))

  -- pct_consumed >= warning_pct, of a row whose lifetime is positive.
  unfoldable pub is_due : ℕ → ℕ → Attestation → Bool
  is_due now warning_pct att = elim (unwarned att) [
    | none ↦ false
    | some t ↦
        let total_ttl = F.total_seconds (pos t -ℤ pos att.issued_at) in
        let elapsed = F.total_seconds (pos now -ℤ pos att.issued_at) in
        not (F.le total_ttl (F.number 0))
        && F.le (F.number warning_pct) (F.mul (F.div elapsed total_ttl) (F.number 100))
  ]

  -- The loop comes to a row of positive lifetime, whose age it takes from the clock.
  unfoldable pub meets_lifetime : Table Attestation → Bool
  meets_lifetime [] = false
  meets_lifetime ((k, att) ∷ t) = has_lifetime (unwarned att) att.issued_at || meets_lifetime t

  -- Where loaded instants have no offset, the age of a row is a `TypeError`.
  unfoldable pub warn_expiring_attestations :
      AttestationSettings → ℕ → ℕ → AttestationDb R → Result (AttestationDb R)
  unfolding modify_each is_due meets_lifetime
  warn_expiring_attestations s now warning_pct d = do
    raise_if (not s.aware && meets_lifetime d.attestations) (http 500 naive_datetime)
    ok (record d {
      attestations =
          modify_each (warn now) (select (is_due now warning_pct) d.attestations) d.attestations;
    })
