-- ===== src/Exchange/Attestations/Order.antt =====
-- About sequences of the operations on attestations.
use a2a_settlement.Base.{
  ℕ, ◌≤◌, ◌≡◌, refl, ap, ◌∙◌, Bool, false, Option, none, some, List, arith, is_some,
}
use a2a_settlement.Table.{Table, find, modify, select}
use a2a_settlement.Table.Keys.{UniqueKeys, UniqueKeys-modify, UniqueKeys-append, select-Pending}
use a2a_settlement.Table.Laws.{is_some-find-modify}
use a2a_settlement.Exchange.Errors.{ok, Ensures-or_raise, Ensures-raise_if, Ensures-ok}
use a2a_settlement.Exchange.Models.{Db}
use a2a_settlement.Exchange.Attestations.{
  AttestationType, AttestationStatus, RevocationReason, Attestation, AttestationDb,
  AttestationSettings, AttestationStatusResponse, RenewAttestationResponse, AttestationFilter,
  AttestationResponse, Ratios, is_closed, is_stale, expire, check_and_expire, revoke_row, renew_row,
  warn, is_due, keys, page, latest_first, matching, matches, issue_attestation, status_answer,
  get_attestation_status, revoke_attestation, renew_now, renew_attestation, list_attestations,
  expire_stale_attestations, warn_expiring_attestations,
}
use a2a_settlement.Exchange.Attestations.Advance.{
  stage, Advances, Advances-same, Forward, Forward-refl, Forward-trans, Forward-modify,
  Forward-append, expire-Advances, check_and_expire-Advances, modify_each-Forward,
  modify_each-Forward-Pending, UniqueKeys-modify_each,
}
use Prim.Native.String.{String}

open_stage : (st : AttestationStatus) → is_closed st ≡ false → stage st ≤ 2
open_stage AttestationStatus.active h = omega arith
open_stage AttestationStatus.expired h = omega arith
open_stage AttestationStatus.revoked h = omega arith
open_stage AttestationStatus.renewed h = cc

last_stage : (st : AttestationStatus) → stage st ≤ 3
last_stage AttestationStatus.active = omega arith
last_stage AttestationStatus.expired = omega arith
last_stage AttestationStatus.revoked = omega arith
last_stage AttestationStatus.renewed = omega arith

revoke-Advances :
    (now : ℕ) (reason : RevocationReason) (a : Attestation)
    → is_closed a.status ≡ false
    → Advances a (revoke_row now reason a)
revoke-Advances now reason a h =
    Advances-same a (revoke_row now reason a) (open_stage a.status h) refl

renew-Advances : (a : Attestation) → Advances a (renew_row a)
renew-Advances a = Advances-same a (renew_row a) (last_stage a.status) refl

warn-Advances : (now : ℕ) (a : Attestation) → Advances a (warn now a)
warn-Advances now a = Advances-same a (warn now a) (omega arith) refl

is_some-none : (o : Option Attestation) → is_some o ≡ false → o ≡ none
is_some-none none h = refl
is_some-none (some a) h = cc

pub fresh_modify :
    (j k : ℕ) (f : Attestation → Attestation) (t : Table Attestation)
    → find j t ≡ none
    → find j (modify k f t) ≡ none
fresh_modify j k f t fresh = is_some-none _ (is_some-find-modify j k f t ∙ ap is_some fresh)

-- Every row moves forward, and ids stay unique.
abbrev pub Kept : Table Attestation → Table Attestation → Type 0
Kept t t' = Forward t t' × (UniqueKeys t → UniqueKeys t')

module _ {R : Type 0} (s : AttestationSettings) (F : Ratios R)
    (payload_hash : ℕ → AttestationType → ℕ → Option ℕ → String) where
  -- One operation at some instant: a request that succeeds, a pass of the sweep, or a change of
  -- the other tables. A new row has an id that no row has.
  pub data Step : AttestationDb R → AttestationDb R → Type 0 where
    issued :
        (now current id : ℕ) (type : AttestationType) (metadata : Option String)
        (d : AttestationDb R)
        → find id d.attestations ≡ none
        → Step d (issue_attestation s payload_hash now current id type metadata d).0
    asked :
        (now id : ℕ) (d : AttestationDb R) (r : AttestationDb R × AttestationStatusResponse)
        → get_attestation_status s payload_hash now id d ≡ ok r
        → Step d r.0
    was_revoked :
        (now current : ℕ) (operator : Bool) (id : ℕ) (reason : RevocationReason) (signed : Bool)
        (d : AttestationDb R) (r : AttestationDb R × ℕ)
        → revoke_attestation s payload_hash now current operator id reason signed d ≡ ok r
        → Step d r.0
    was_renewed :
        (now current id new_id : ℕ) (d : AttestationDb R)
        (r : AttestationDb R × RenewAttestationResponse)
        → find new_id d.attestations ≡ none
        → renew_attestation s payload_hash now current id new_id d ≡ ok r
        → Step d r.0
    listed :
        (now : ℕ) (f : AttestationFilter) (d : AttestationDb R)
        (r : AttestationDb R × List AttestationResponse × ℕ)
        → list_attestations s now f d ≡ ok r
        → Step d r.0
    swept : (now : ℕ) (d : AttestationDb R) → Step d (expire_stale_attestations now d)
    warned :
        (now warning_pct : ℕ) (d r : AttestationDb R)
        → warn_expiring_attestations F s now warning_pct d ≡ ok r
        → Step d r
    elsewhere : (db : Db R) (d : AttestationDb R) → Step d (record d { db = db })

  pub data Reach : AttestationDb R → AttestationDb R → Type 0 where
    start : (d : AttestationDb R) → Reach d d
    next : {d d' d'' : AttestationDb R} → Reach d d' → Step d' d'' → Reach d d''

  Kept-status :
      (now id : ℕ) (d : AttestationDb R)
      → (r : AttestationDb R × AttestationStatusResponse)
      → get_attestation_status s payload_hash now id d ≡ ok r
      → Kept d.attestations r.0.attestations
  unfolding get_attestation_status status_answer
  Kept-status now id d = Ensures-or_raise _ _ _ λ att at. Ensures-raise_if _ _ _ λ sound.
      Ensures-ok _ _ (
        Forward-modify id (check_and_expire now) d.attestations
            (λ a at'. check_and_expire-Advances now a),
        UniqueKeys-modify id (check_and_expire now) d.attestations,
      )

  Kept-revoke :
      (now current : ℕ) (operator : Bool) (id : ℕ) (reason : RevocationReason) (signed : Bool)
      (d : AttestationDb R)
      → (r : AttestationDb R × ℕ)
      → revoke_attestation s payload_hash now current operator id reason signed d ≡ ok r
      → Kept d.attestations r.0.attestations
  unfolding revoke_attestation
  Kept-revoke now current operator id reason signed d = Ensures-or_raise _ _ _ λ att at.
      Ensures-raise_if _ _ _ λ allowed. Ensures-raise_if _ _ _ λ not_closed.
        Ensures-raise_if _ _ _ λ signatures. Ensures-ok _ _ (
          Forward-modify id (revoke_row now reason) d.attestations (λ a at'.
              let same : some att ≡ some a = cc in
              revoke-Advances now reason a (let still : is_closed a.status ≡ false = cc in still)),
          UniqueKeys-modify id (revoke_row now reason) d.attestations,
        )

  Kept-renew :
      (now current id new_id : ℕ) (d : AttestationDb R)
      → find new_id d.attestations ≡ none
      → (r : AttestationDb R × RenewAttestationResponse)
      → renew_attestation s payload_hash now current id new_id d ≡ ok r
      → Kept d.attestations r.0.attestations
  unfolding renew_attestation renew_now
  Kept-renew now current id new_id d fresh = Ensures-or_raise _ _ _ λ old at.
      Ensures-raise_if _ _ _ λ owner. Ensures-raise_if _ _ _ λ temporary.
        Ensures-raise_if _ _ _ λ not_renewed. Ensures-or_raise _ _ _ λ bal hb.
          Ensures-raise_if _ _ _ λ funds.
            let marked = modify id renew_row d.attestations in
            Ensures-ok _ _ (
              Forward-trans d.attestations marked _
                  (Forward-modify id renew_row d.attestations (λ a at'. renew-Advances a))
                  (Forward-append new_id _ marked),
              λ unique.
                  UniqueKeys-append new_id _ marked (fresh_modify new_id id renew_row _ fresh)
                    (UniqueKeys-modify id renew_row d.attestations unique),
            )

  abbrev page_keys : AttestationFilter → AttestationDb R → List ℕ
  page_keys f d = keys (page f.offset f.limit (latest_first (matching (matches f) d.attestations)))

  Kept-list :
      (now : ℕ) (f : AttestationFilter) (d : AttestationDb R)
      → (r : AttestationDb R × List AttestationResponse × ℕ) → list_attestations s now f d ≡ ok r
      → Kept d.attestations r.0.attestations
  unfolding list_attestations
  Kept-list now f d = Ensures-raise_if _ _ _ λ sound. Ensures-ok _ _ (
    modify_each-Forward (check_and_expire now) (page_keys f d) d.attestations
        (check_and_expire-Advances now),
    UniqueKeys-modify_each (check_and_expire now) (page_keys f d) d.attestations,
  )

  Kept-warn :
      (now warning_pct : ℕ) (d : AttestationDb R)
      → (r : AttestationDb R) → warn_expiring_attestations F s now warning_pct d ≡ ok r
      → Kept d.attestations r.attestations
  unfolding warn_expiring_attestations
  Kept-warn now warning_pct d = Ensures-raise_if _ _ _ λ sound. Ensures-ok _ _ (
    modify_each-Forward (warn now) (select (is_due F now warning_pct) d.attestations) d.attestations
        (warn-Advances now),
    UniqueKeys-modify_each (warn now) (select (is_due F now warning_pct) d.attestations)
        d.attestations,
  )

  -- Along one step.
  Step-Kept :
      {d d' : AttestationDb R}
      → Step d d'
      → UniqueKeys d.attestations
      → Forward d.attestations d'.attestations × UniqueKeys d'.attestations
  unfolding issue_attestation expire_stale_attestations
  Step-Kept (Step.issued now current id type metadata d fresh) unique =
      (Forward-append id _ d.attestations, UniqueKeys-append id _ d.attestations fresh unique)
  Step-Kept (Step.asked now id d r q) unique =
      let kept = Kept-status now id d r q in (kept.0, kept.1 unique)
  Step-Kept (Step.was_revoked now current operator id reason signed d r q) unique =
      let kept = Kept-revoke now current operator id reason signed d r q in (kept.0, kept.1 unique)
  Step-Kept (Step.was_renewed now current id new_id d r fresh q) unique =
      let kept = Kept-renew now current id new_id d fresh r q in (kept.0, kept.1 unique)
  Step-Kept (Step.listed now f d r q) unique =
      let kept = Kept-list now f d r q in (kept.0, kept.1 unique)
  Step-Kept (Step.swept now d) unique = (
    modify_each-Forward-Pending (is_stale now) expire (select (is_stale now) d.attestations)
        d.attestations (expire-Advances now) (select-Pending (is_stale now) d.attestations unique),
    UniqueKeys-modify_each expire (select (is_stale now) d.attestations) d.attestations unique,
  )
  Step-Kept (Step.warned now warning_pct d r q) unique =
      let kept = Kept-warn now warning_pct d r q in (kept.0, kept.1 unique)
  Step-Kept (Step.elsewhere db d) unique = (Forward-refl d.attestations, unique)

  -- Along any sequence of issues, status queries, revocations, renewals, listings and sweeps
  -- from unique ids, no attestation is lost, its status only moves forward in the order active,
  -- expired, revoked, renewed, and its account, type, dates, parent and hash stay; ids stay
  -- unique.
  pub Reach-Forward :
      {d d' : AttestationDb R}
      → Reach d d'
      → UniqueKeys d.attestations
      → Forward d.attestations d'.attestations × UniqueKeys d'.attestations
  Reach-Forward (Reach.start d) unique = (Forward-refl d.attestations, unique)
  Reach-Forward (Reach.next run step) unique =
      let (before, unique') = Reach-Forward run unique in
      let (after, unique'') = Step-Kept step unique' in (Forward-trans _ _ _ before after, unique'')
