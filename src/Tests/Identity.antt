-- ===== src/Tests/Identity.antt =====
-- Cards, credentials and issuers, with a readable stand-in for keys; a page of escrows; a metric.
use a2a_settlement.Base.{
  ℕ, ◌+◌, ◌*◌, ◌/◌, ◌≤◌, ◌≡◌, ◌≢◌, ◌↔◌, refl, true, false, Option, none, some, List, [], ◌∷◌, arith,
  min, ap, zero, suc, is_some, ltb,
}
use a2a_settlement.Table.{Table, find, modify, select, append}
use a2a_settlement.Exchange.Ledger.{add_transaction}
use a2a_settlement.Tests.Data.{thousandths, trader, books, is_ok, value_of, ok-value_of}
use a2a_settlement.Tests.Accounts.{account_settings, bcrypt, operator}
use a2a_settlement.Exchange.Errors.{Result, ok, raise_if, or_raise, ◌>>=◌, ◌>>◌}
use a2a_settlement.Exchange.Models.{Account, Db}
use a2a_settlement.Exchange.Config.{hours, minutes}
use a2a_settlement.Exchange.Accounts.Rows.{some_account}
use a2a_settlement.Exchange.Accounts.Cards.{
  KyaRegisterResponse, instant_of, are_dates, meets_naive, register_agent,
}
use a2a_settlement.Exchange.Accounts.Cards.Expiry.{ExpiredBy, IsUtc}
use a2a_settlement.Exchange.Accounts.Cards.Lapses.{register_agent_lapses}
use a2a_settlement.Exchange.Accounts.Cards.Verified.{
  register_agent_borrowed, register_agent_expired,
}
use a2a_settlement.Exchange.Identity.Issuers.{
  TrustedIssuer, get_issuer, get_active_dids, initial_issuer,
}
use a2a_settlement.Exchange.Identity.Verifier.{
  valid, Credential, CredentialProof, AgentCard, DidDocument, Stamp, Outside, find_method,
  extract_verification_method, is_member, text_of, check_issuer, check_dates, check_proof,
  credential_status, verify_agent_card, verify_attestations, verify_signature_of, verify_credential,
  any_valid,
}
use a2a_settlement.Exchange.Identity.Verifier.Levels.{IsCardSigned, level_two_exactly}
use a2a_settlement.Exchange.Identity.Verifier.Credentials.{HasValid}
use a2a_settlement.Exchange.Identity.Monitor.{tick}
use a2a_settlement.Exchange.KyaAdmin.{issue_exchange_vc, deactivate_trusted_issuer}
use a2a_settlement.Exchange.KyaAdmin.Trust.{
  UniqueDids, OperatorLaws, deactivated_issuer_refused, issue_exchange_vc-valid,
}
use a2a_settlement.Exchange.Metrics.{
  ReputationMetrics, is_dispute, is_settled, count_in_window, compute_reputation_metrics,
}
use a2a_settlement.Exchange.Metrics.Bounds.{InUnit, UnitLaws, compute_reputation_metrics_bounds}
use Prim.Native.String.{String, ◌++◌}
use mathlib.Core.Option.{some-injective}
use text.Mathlib.TextEquality.{eq_iff}
use mathlib.Core.Path.{subst}

abbrev size : String → ℕ
size String.[] = 0
size (String.◌∷◌ c t) = suc (size t)

abbrev dashes : ℕ → String
dashes zero = ""
dashes (suc n) = String.◌∷◌ "-" (dashes n)

size-dashes : (n : ℕ) → size (dashes n) ≡ n
size-dashes zero = refl
size-dashes (suc n) = ap suc (size-dashes n)

-- A date is a text, and its instant the text's length.
abbrev stamp_of : String → Stamp
stamp_of t = record { wall = size t; instant = size t; has_offset = true }

abbrev document : String → DidDocument
document did = record {
  id = did;
  verification_methods = record { id = did ++ "#key-1"; public_key_multibase = "public" } ∷ [];
}

-- Every DID resolves, every signature holds.
abbrev outside : Outside
outside = record {
  resolve = λ did. some (document did);
  verify_ed25519 = λ message signature key. true;
  canonical_vc = λ c. "";
  canonical_card = λ card. "";
  fromisoformat = λ t. some (stamp_of t);
}

abbrev proof : CredentialProof
proof = record {
  proof_type = some "Ed25519Signature2020";
  verification_method = some "did:web:issuer#key-1";
  proof_value = some "signed";
}

abbrev credential : String → Credential
credential expires = record {
  vc_type = some "VerifiableCredential";
  issuer = some "did:web:issuer";
  issuer_name = some "Issuer";
  claim = some "KYA-Level-2-Verified";
  credential_subject = some "did:web:other";
  valid_from = some "";
  expires_at = some expires;
  proof = some proof;
}

abbrev card : String → AgentCard
card expires = record {
  name = "agent";
  id = "did:web:agent";
  description = "";
  kya_level = 2;
  attestations = credential expires ∷ [];
  skills = [];
  card_signature =
      some (record { verification_method = "did:web:agent#key-1"; proof_value = "signed" });
  json = "{}";
}

abbrev trusted : List String
trusted = "did:web:issuer" ∷ []

card_IsCardSigned : IsCardSigned outside trusted (card "----------")
unfolding extract_verification_method find_method
card_IsCardSigned = (
  document "did:web:agent",
  refl,
  record { verification_method = "did:web:agent#key-1"; proof_value = "signed" },
  refl,
  record { id = "did:web:agent#key-1"; public_key_multibase = "public" },
  refl,
  refl,
)

credential_holds : credential_status outside trusted 7 (credential "----------") ≡ valid
unfolding credential_status check_proof check_dates check_issuer extract_verification_method
    find_method is_member
credential_holds = refl

level_two_exactly_example :
    (verify_agent_card outside trusted 7 (card "----------")).kya_level_verified ≡ 2
    ↔ (2 ≤ 2)
      × IsCardSigned outside trusted (card "----------")
      × HasValid outside trusted 7 (credential "----------" ∷ [])
level_two_exactly_example = level_two_exactly outside trusted 7 (card "----------")

abbrev registration : Result (Db ℕ × KyaRegisterResponse ℕ)
registration =
    register_agent thousandths account_settings (verify_agent_card outside trusted)
      outside.fromisoformat bcrypt 7 "five" "salt" 5 (some (card "----------")) books

registered : is_ok registration ≡ true
unfolding register_agent are_dates meets_naive ◌>>=◌ ◌>>◌ raise_if or_raise some_account
    verify_agent_card verify_signature_of verify_attestations verify_credential any_valid
    credential_status check_proof check_dates check_issuer extract_verification_method find_method
    is_member find
registered = refl

short_lived :
    (u : ℕ) → 10 ≤ u → ExpiredBy (instant_of outside.fromisoformat) u (credential "----------" ∷ [])
short_lived u h zero c at =
    subst (λ x. instant_of outside.fromisoformat x.expires_at ≤ u)
      (some-injective (credential "----------") c at) h
short_lived u h (suc i) c at =
    let clash : none ≡ some c = at in let impossible : ⊥ = cc in absurd impossible

credential-IsUtc : IsUtc outside.fromisoformat (credential "----------" ∷ [])
credential-IsUtc i c date at read =
    subst (λ x. x.wall ≡ x.instant) (some-injective (stamp_of (text_of c.expires_at)) date read)
      refl

abbrev after_tick : Option (Account ℕ)
after_tick = find 5 (tick (λ did. true) 10 1 (value_of registration registered).0.accounts)

abbrev row_of : (o : Option (Account ℕ)) → is_some o ≡ true → Account ℕ
row_of (some a) h = a
row_of none h = let impossible : ⊥ = cc in absurd impossible

some-row_of : (o : Option (Account ℕ)) (h : is_some o ≡ true) → o ≡ some (row_of o h)
some-row_of (some a) h = refl
some-row_of none h = let impossible : ⊥ = cc in absurd impossible

still_there : is_some after_tick ≡ true
unfolding find tick select register_agent are_dates meets_naive ◌>>=◌ or_raise ◌>>◌ raise_if
    verify_agent_card some_account add_transaction append hours modify
still_there = refl

register_agent_lapses_example : (row_of after_tick still_there).kya_level_verified ≤ 1
unfolding find
register_agent_lapses_example =
    register_agent_lapses thousandths account_settings outside trusted bcrypt 7 10 1 "five" "salt" 5
      (card "----------") books (value_of registration registered) (λ did. true)
      (row_of after_tick still_there) credential-IsUtc refl (ok-value_of registration registered)
      (short_lived 10 (omega arith)) (some-row_of after_tick still_there)

abbrev registering : Outside → ℕ → Result (Db ℕ × KyaRegisterResponse ℕ)
registering o now =
    register_agent thousandths account_settings (verify_agent_card o trusted) o.fromisoformat bcrypt
      now "five" "salt" 5 (some (card "----------")) books

other_did : ◌≢◌ {A = String} "did:web:other" "did:web:agent"
other_did e =
    let clash : false ≡ true = (eq_iff "did:web:other" "did:web:agent").1 e in
    let impossible : ⊥ = cc in absurd impossible

register_agent_borrowed_example :
    (r : Db ℕ × KyaRegisterResponse ℕ) × (registering outside 7 ≡ ok r)
    × (a : Account ℕ) × (find 5 r.0.accounts ≡ some a)
    × (a.kya_level_verified ≡ 2)
    × (a.did ≡ some "did:web:agent")
unfolding find some_account are_dates meets_naive
register_agent_borrowed_example =
    register_agent_borrowed thousandths account_settings outside trusted bcrypt 7 "five" "salt"
      "did:web:other" 5 (card "----------") books 0 (credential "----------") refl refl refl refl
      refl refl (omega arith) card_IsCardSigned refl credential_holds refl other_did

-- Where a date is written later than it is: its offset is dropped.
abbrev eastern : Outside
eastern = record outside {
  fromisoformat = λ t. some (record { wall = 2 * size t; instant = size t; has_offset = true });
}

card_IsCardSigned_abroad : IsCardSigned eastern trusted (card "----------")
unfolding extract_verification_method find_method
card_IsCardSigned_abroad = (
  document "did:web:agent",
  refl,
  record { verification_method = "did:web:agent#key-1"; proof_value = "signed" },
  refl,
  record { id = "did:web:agent#key-1"; public_key_multibase = "public" },
  refl,
  refl,
)

expired_holds : credential_status eastern trusted 15 (credential "----------") ≡ valid
unfolding credential_status check_proof check_dates check_issuer extract_verification_method
    find_method is_member
expired_holds = refl

register_agent_expired_example :
    (r : Db ℕ × KyaRegisterResponse ℕ) × (registering eastern 15 ≡ ok r)
    × (a : Account ℕ) × (find 5 r.0.accounts ≡ some a)
    × (a.kya_level_verified ≡ 2)
    × (a.attestation_expires_at ≡ none)
unfolding find some_account are_dates meets_naive
register_agent_expired_example =
    register_agent_expired thousandths account_settings eastern trusted bcrypt 15 "five" "salt" 5
      (card "----------") books 0 (credential "----------") refl refl refl refl refl refl
      (omega arith) card_IsCardSigned_abroad refl expired_holds (short_lived 15 (omega arith))

own_laws : OperatorLaws outside (λ message key. "signed") dashes "did:web:exchange" "private"
unfolding extract_verification_method find_method
own_laws = record {
  document = document "did:web:exchange";
  method = record { id = "did:web:exchange#key-1"; public_key_multibase = "public" };
  resolves = refl;
  published = refl;
  signs = λ message. refl;
  reads = λ t. rw (size-dashes t) refl;
}

abbrev issuing : Result (Table (Account ℕ) × Credential)
issuing =
    issue_exchange_vc outside.canonical_vc (λ message key. "signed") dashes 7 "KYA-Level-2-Verified"
      1 "did:web:exchange" 1 "1" (some "private") operator books.accounts

issued : is_ok issuing ≡ true
unfolding issue_exchange_vc ◌>>=◌ ◌>>◌ raise_if or_raise find
issued = refl

issue_exchange_vc-valid_example :
    (credential_status outside ("did:web:exchange" ∷ []) 8 (value_of issuing issued).1 ≡ valid)
    × ((a : Account ℕ) × (find 1 (value_of issuing issued).0 ≡ some a)
        × (a.kya_level_verified ≡ 2)
        × (a.attestation_expires_at ≡ some (7 + hours (24 * 1))))
unfolding is_member hours minutes
issue_exchange_vc-valid_example =
    issue_exchange_vc-valid outside (λ message key. "signed") dashes "did:web:exchange" "private" 7
      8 1 1 "KYA-Level-2-Verified" "1" ("did:web:exchange" ∷ []) operator books.accounts
      (value_of issuing issued) own_laws refl (omega arith) (omega arith)
      (ok-value_of issuing issued)

abbrev issuer : TrustedIssuer
issuer = record (initial_issuer 1) { did = "did:web:issuer" }

abbrev deactivation : Result (List TrustedIssuer)
deactivation = deactivate_trusted_issuer "did:web:issuer" operator (initial_issuer 1 ∷ issuer ∷ [])

deactivated : is_ok deactivation ≡ true
unfolding deactivate_trusted_issuer ◌>>=◌ ◌>>◌ raise_if or_raise get_issuer
deactivated = refl

distinct_dids : UniqueDids (initial_issuer 1 ∷ issuer ∷ [])
unfolding get_issuer
distinct_dids = (refl, (refl, tt))

-- The credential that held before.
deactivated_issuer_refused_example :
    credential_status outside
      (get_active_dids (value_of deactivation deactivated))
      7
      (credential "----------")
    ≢ valid
deactivated_issuer_refused_example =
    deactivated_issuer_refused outside "did:web:issuer" operator (initial_issuer 1 ∷ issuer ∷ [])
      (value_of deactivation deactivated) 7 (credential "----------") distinct_dids
      (ok-value_of deactivation deactivated) refl

abbrev ratio : ℕ → ℕ → ℕ
ratio m n = min 1000 (m * 1000 / n)

capped_zero : (n : ℕ) → ltb (min 1000 n) 0 ≡ false
capped_zero n = ground arith

capped_one : (n : ℕ) → ltb 1000 (min 1000 n) ≡ false
capped_one n = ground arith

unit_laws : UnitLaws thousandths ratio (λ x. x)
unit_laws = record {
  zero_in = (refl, refl);
  ratio_in = λ m n h positive. (capped_zero (m * 1000 / n), capped_one (m * 1000 / n));
  round4_in = λ x h. h;
}

abbrev metrics : ReputationMetrics ℕ
metrics = compute_reputation_metrics thousandths ratio (λ x. x) 90 0 2 trader none books.escrows

compute_reputation_metrics_bounds_example :
    (metrics.task_count
      ≡ count_in_window is_dispute 2 0 90 books.escrows
        + count_in_window is_settled 2 0 90 books.escrows)
    × InUnit thousandths metrics.dispute_rate
compute_reputation_metrics_bounds_example =
    compute_reputation_metrics_bounds thousandths ratio (λ x. x) 90 0 2 trader none books.escrows
      unit_laws
