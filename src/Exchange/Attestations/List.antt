-- ===== src/Exchange/Attestations/List.antt =====
-- `list_attestations` of exchange/routes/attestations.py.
use a2a_settlement.Base.{
  ℕ, zero, suc, Bool, true, false, ◌||◌, Option, none, some, List, [], ◌∷◌, map, length, ltb, ◌==◌,
  ◌&&◌, if◌then◌else◌,
}
use a2a_settlement.Table.{Table}
use a2a_settlement.Exchange.Errors.{Result, ok, http, raise_if, ◌>>◌, naive_datetime}
use a2a_settlement.Exchange.Attestations.Rows.{
  AttestationType, AttestationStatus, Attestation, AttestationDb, AttestationResponse, to_response,
  AttestationSettings, is_incomparable, check_and_expire, modify_each,
}

-- The filters of `list_attestations`; an empty text is no filter.
pub record AttestationFilter : Type 0 where
  pub account_id : ℕ
  pub attestation_type : Option AttestationType
  pub status : Option AttestationStatus
  pub limit : ℕ
  pub offset : ℕ

abbrev type_code : AttestationType → ℕ
type_code AttestationType.identity = 0
type_code AttestationType.reputation = 1
type_code AttestationType.transaction = 2
type_code AttestationType.capability = 3

abbrev status_code : AttestationStatus → ℕ
status_code AttestationStatus.active = 0
status_code AttestationStatus.expired = 1
status_code AttestationStatus.revoked = 2
status_code AttestationStatus.renewed = 3

abbrev pub has_type : Option AttestationType → AttestationType → Bool
has_type none t = true
has_type (some wanted) t = type_code wanted == type_code t

abbrev pub has_status : Option AttestationStatus → AttestationStatus → Bool
has_status none t = true
has_status (some wanted) t = status_code wanted == status_code t

abbrev pub matches : AttestationFilter → Attestation → Bool
matches f att =
    att.account_id == f.account_id
    && (has_type f.attestation_type att.attestation_type && has_status f.status att.status)

unfoldable pub matching : (Attestation → Bool) → Table Attestation → Table Attestation
matching p [] = []
matching p ((k, att) ∷ t) = if p att then (k, att) ∷ matching p t else matching p t

-- order_by(issued_at.desc()); rows of one instant keep the order of the table.
unfoldable pub insert_by_issue : ℕ → Attestation → Table Attestation → Table Attestation
insert_by_issue k att [] = (k, att) ∷ []
insert_by_issue k att ((j, b) ∷ t) =
    if ltb att.issued_at b.issued_at
    then (j, b) ∷ insert_by_issue k att t
    else (k, att) ∷ (j, b) ∷ t

unfoldable pub latest_first : Table Attestation → Table Attestation
unfolding insert_by_issue
latest_first [] = []
latest_first ((k, att) ∷ t) = insert_by_issue k att (latest_first t)

unfoldable pub page : ℕ → ℕ → Table Attestation → Table Attestation
page offset limit [] = []
page (suc offset) limit (r ∷ t) = page offset limit t
page zero zero (r ∷ t) = []
page zero (suc limit) (r ∷ t) = r ∷ page zero limit t

abbrev pub keys : Table Attestation → List ℕ
keys = map (λ r. r.0)

-- Some row of a page has an expiry that cannot be compared.
unfoldable pub has_incomparable : AttestationSettings → Table Attestation → Bool
has_incomparable s [] = false
has_incomparable s ((k, att) ∷ t) = is_incomparable s att || has_incomparable s t

-- The new tables, the page as it is answered, and the number of rows that match.
unfoldable pub list_attestations :
    {R : Type 0}
    → AttestationSettings
    → ℕ
    → AttestationFilter
    → AttestationDb R
    → Result (AttestationDb R × List AttestationResponse × ℕ)
unfolding modify_each check_and_expire matching latest_first page has_incomparable
list_attestations s now f d = do
  let found = matching (matches f) d.attestations
  let rows = page f.offset f.limit (latest_first found)
  raise_if (has_incomparable s rows) (http 500 naive_datetime)
  ok (
    record d { attestations = modify_each (check_and_expire now) (keys rows) d.attestations },
    map (λ r. to_response now r.0 (check_and_expire now r.1)) rows,
    length found,
  )
