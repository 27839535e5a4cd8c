-- ===== src/Tests/Trust.antt =====
-- Runs of the attestation handlers, and of the principal resolver on thousandths.
use a2a_settlement.Base.{
  ℕ, ◌≡◌, ◌≢◌, ◌↔◌, refl, true, not, Option, none, some, List, [], ◌∷◌, ltb, arith,
}
use a2a_settlement.Table.{find}
use a2a_settlement.Table.Keys.{UniqueKeys}
use a2a_settlement.Tests.Data.{thousandths, balance, books, is_ok, value_of, ok-value_of}
use a2a_settlement.Exchange.Errors.{Result, ok, raise_if, or_raise, ◌>>=◌, ◌>>◌}
use a2a_settlement.Exchange.Models.{SelfDealingClass}
use a2a_settlement.Int.{pos, ◌-ℤ◌}
use a2a_settlement.Exchange.Attestations.{
  AttestationType, AttestationStatus, RevocationReason, Attestation, AttestationDb,
  AttestationSettings, RenewAttestationResponse, Ratios, revoke_attestation, renew_attestation,
  expire_stale_attestations,
}
use a2a_settlement.Exchange.Attestations.Advance.{Forward}
use a2a_settlement.Exchange.Attestations.Order.{Step, Reach, Reach-Forward}
use a2a_settlement.Exchange.Attestations.Lifecycle.{
  IsSuccessor, Reported, revoked-Reported, renew_returns,
}
use a2a_settlement.Exchange.Principals.{
  PrincipalLink, LinkSource, Verdict, Resolver, decide, is_same_principal, link_agent_to_principal,
  classify_transaction,
}
use a2a_settlement.Exchange.Principals.Verdicts.{FloatOrder, Shares, decide_exactly}
use a2a_settlement.Exchange.Principals.Cached.{
  IsCoherent, verdict, is_same_principal_refines, linked_is_self_dealing,
}
use Prim.Native.String.{String}

abbrev terms : AttestationSettings
terms = record {
  aware = true;
  ttl_identity_days = 365;
  ttl_reputation_days = 90;
  ttl_capability_days = 180;
  grace_period_hours = 72;
  renewal_fee = 1;
}

abbrev digest : ℕ → AttestationType → ℕ → Option ℕ → String
digest account type now parent = "digest"

abbrev ratios : Ratios ℕ
ratios = record {
  total_seconds = λ n. 0;
  number = λ n. n;
  div = λ x y. x;
  mul = λ x y. x;
  le = λ x y. not (ltb y x);
}

abbrev identity_row : AttestationStatus → Attestation
identity_row status = record {
  account_id = 1;
  attestation_type = AttestationType.identity;
  status = status;
  issued_at = 100;
  expires_at = some 5000;
  revoked_at = none;
  revocation_reason = none;
  parent_attestation_id = none;
  payload_hash = "digest";
  warning_sent_at = none;
  metadata_json = none;
}

-- Attestation 50 is active and 51 revoked, both of account 1.
abbrev attested : AttestationDb ℕ
attested = record {
  db = books;
  attestations =
      (50, identity_row AttestationStatus.active)
      ∷ (51, identity_row AttestationStatus.revoked)
      ∷ [];
}

distinct_ids : UniqueKeys attested.attestations
unfolding find
distinct_ids = (refl, (refl, tt))

run : Reach terms ratios digest attested (expire_stale_attestations 9000 attested)
run = Reach.next (Reach.start attested) (Step.swept 9000 attested)

Reach-Forward_example :
    Forward attested.attestations (expire_stale_attestations 9000 attested).attestations
    × UniqueKeys (expire_stale_attestations 9000 attested).attestations
Reach-Forward_example = Reach-Forward terms ratios digest run distinct_ids

abbrev revoking : Result (AttestationDb ℕ × ℕ)
revoking =
    revoke_attestation terms digest 600 3 true 50 RevocationReason.policy_violation true attested

revoking_runs : is_ok revoking ≡ true
unfolding revoke_attestation ◌>>=◌ ◌>>◌ raise_if or_raise find
revoking_runs = refl

revoked-Reported_example :
    Reported terms digest 600 3 700 true 50 RevocationReason.policy_violation true attested
      (value_of revoking revoking_runs).0
revoked-Reported_example =
    revoked-Reported terms digest 600 3 700 true 50 RevocationReason.policy_violation true attested
      refl (value_of revoking revoking_runs) (ok-value_of revoking revoking_runs)

-- The renewal of the revoked one.
renew_returns_example :
    (r : AttestationDb ℕ × RenewAttestationResponse) × (renew_attestation terms digest 800 1 51 53
        attested
      ≡ ok r)
    × (find 51 r.0.attestations ≡ some (identity_row AttestationStatus.renewed))
    × IsSuccessor 800 51 (identity_row AttestationStatus.revoked) (find 53 r.0.attestations)
    × (find 1 r.0.db.balances
        ≡ some (record (balance 1000 329) { available = (balance 1000 329).available -ℤ pos 1 }))
    × (r.1.fee_charged ≡ 1)
unfolding find
renew_returns_example =
    renew_returns terms digest 800 1 51 53 attested (identity_row AttestationStatus.revoked)
      (balance 1000 329) refl refl refl refl refl refl refl

thousandths-Order : FloatOrder thousandths
thousandths-Order = record {
  above = λ x y t less over. ground (arith, less, over);
  below = λ x y t more over. ground (arith, more, over);
}

abbrev link : ℕ → ℕ → ℕ → PrincipalLink ℕ
link agent principal confidence = record {
  agent_id = agent;
  principal_id = principal;
  link_source = LinkSource.registration;
  confidence = confidence;
}

abbrev links : List (PrincipalLink ℕ)
links = link 1 70 900 ∷ link 2 70 600 ∷ link 2 71 900 ∷ []

abbrev resolver : Resolver ℕ
resolver = record { links = links; principals = []; developers = []; cache = [] }

decide_exactly_example :
    ((decide thousandths (λ c. c) 1 2 links).verdict ≡ Verdict.hard_match
      ↔ Shares thousandths 800 1 2 links)
    × ((decide thousandths (λ c. c) 1 2 links).verdict ≢ Verdict.no_match
        ↔ Shares thousandths 500 1 2 links)
decide_exactly_example = decide_exactly thousandths thousandths-Order (λ c. c) 1 2 links refl

is_same_principal_refines_example :
    ((is_same_principal thousandths (λ c. c) 2 1 9 resolver).1.verdict
      ≡ verdict thousandths thousandths-Order (λ c. c) 2 1 links)
    × ((is_same_principal thousandths (λ c. c) 2 1 9 resolver).0.links ≡ links)
    × IsCoherent thousandths thousandths-Order
        (λ c. c)
        (is_same_principal thousandths (λ c. c) 2 1 9 resolver).0
is_same_principal_refines_example =
    is_same_principal_refines thousandths thousandths-Order (λ c. c) 2 1 9 resolver tt

linked_is_self_dealing_example :
    (classify_transaction thousandths
      (λ c. c)
      4
      5
      9
      (link_agent_to_principal thousandths 5 70 LinkSource.manual 1000
        (link_agent_to_principal thousandths 4 70 LinkSource.registration 900 resolver))).1
    ≡ SelfDealingClass.self_dealing
linked_is_self_dealing_example =
    linked_is_self_dealing thousandths thousandths-Order (λ c. c) 4 5 9 70 LinkSource.registration
      LinkSource.manual 900 1000 resolver tt refl refl refl
