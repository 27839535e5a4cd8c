-- ===== src/Exchange/KyaAdmin.antt =====
-- exchange/routes/kya_admin.py: the operator's handlers for trusted issuers and agents' identities.
-- Ed25519, canonical JSON and `isoformat` are parameters.
pub mod Trust
use a2a_settlement.Base.{
  ℕ, if◌then◌else◌, ◌+◌, ◌*◌, Bool, true, false, not, Option, none, some, List, ◌==◌, ◌&&◌, is_some,
}
use a2a_settlement.Table.{Table, find, modify, count}
use a2a_settlement.Exchange.Errors.{
  Result, ok, http, raise_if, or_raise, ◌>>=◌, ◌>>◌, not_permitted, account_not_found,
  issuer_exists, issuer_not_found, operator_key_not_found,
}
use a2a_settlement.Exchange.Models.{Account}
use a2a_settlement.Exchange.Config.{hours}
use a2a_settlement.Exchange.Identity.Issuers.{
  TrustedIssuer, get_issuer, get_all_active, add_issuer, deactivate_issuer,
}
use a2a_settlement.Exchange.Identity.Monitor.{at_most, above}
use a2a_settlement.Exchange.Accounts.Rows.{Caller, is_operator_status}
use a2a_settlement.Exchange.Identity.Verifier.{Credential, without_proof}
use Prim.Native.String.{String, ◌++◌}
use text.Mathlib.Text.{◌==◌ as str_eq}

pub record TrustedIssuerCreate : Type 0 where
  pub did : String
  pub name : String
  pub issuer_type : String
  pub accepted_claims : List String
  pub notes : Option String

pub record KyaStatusOverview : Type 0 where
  pub total_agents : ℕ
  pub level_0 : ℕ
  pub level_1 : ℕ
  pub level_2 : ℕ
  pub expiring_within_7d : ℕ
  pub expired : ℕ

pub record RevokeResponse : Type 0 where
  pub agent_id : ℕ
  pub previous_level : ℕ
  pub new_level : ℕ

-- `_require_operator`
unfoldable pub require_operator : Caller → Result (Unit {0})
require_operator current =
    raise_if (not (is_operator_status current.status)) (http 403 not_permitted)

abbrev pub issuer_from : ℕ → Caller → String → TrustedIssuerCreate → TrustedIssuer
issuer_from now current added_by body = record {
  did = body.did;
  name = body.name;
  issuer_type = body.issuer_type;
  accepted_claims = body.accepted_claims;
  active = true;
  added_at = now;
  added_by = added_by;
  notes = body.notes;
}

unfoldable pub list_trusted_issuers : Caller → List TrustedIssuer → Result (List TrustedIssuer)
unfolding require_operator get_all_active
list_trusted_issuers current is = do require_operator current; ok (get_all_active is)

-- `added_by` is the operator's id as a text.
unfoldable pub add_trusted_issuer :
    ℕ
    → String
    → TrustedIssuerCreate
    → Caller
    → List TrustedIssuer
    → Result (List TrustedIssuer × TrustedIssuer)
unfolding require_operator get_issuer add_issuer
add_trusted_issuer now added_by body current is = do
  require_operator current
  raise_if (is_some (get_issuer body.did is)) (http 409 issuer_exists)
  let issuer = issuer_from now current added_by body
  ok (add_issuer issuer is, issuer)

unfoldable pub deactivate_trusted_issuer :
    String → Caller → List TrustedIssuer → Result (List TrustedIssuer)
unfolding require_operator deactivate_issuer
deactivate_trusted_issuer did current is = do
  require_operator current
  let done = deactivate_issuer did is
  raise_if (not done.1) (http 404 issuer_not_found)
  ok done.0

abbrev one_if : Bool → ℕ
one_if true = 1
one_if false = 0

-- `agent.did or agent.id`, the id as a text.
abbrev pub subject_of : String → Option String → String
subject_of id none = id
subject_of id (some did) = if str_eq did "" then id else did

abbrev pub unsigned_vc : (ℕ → String) → String → String → ℕ → ℕ → String → Credential
unsigned_vc isoformat operator_did subject now expires claim = record {
  vc_type = some "VerifiableCredential";
  issuer = some operator_did;
  issuer_name = some "A2A-SE Exchange";
  claim = some claim;
  credential_subject = some subject;
  valid_from = some (isoformat now);
  expires_at = some (isoformat expires);
  proof = none;
}

abbrev pub signed_with :
    (Credential → String) → (String → String → String) → String → String → Credential → Credential
signed_with canonical_vc sign_ed25519 operator_did key c = record c {
  proof = some (record {
    proof_type = some "Ed25519Signature2020";
    verification_method = some (operator_did ++ "#key-1");
    proof_value = some (sign_ed25519 (canonical_vc (without_proof c)) key);
  });
}

module _ {R : Type 0} where
  -- `select(func.count())` with a condition.
  abbrev pub count_where : (Account R → Bool) → Table (Account R) → ℕ
  count_where p accounts = count (λ a. one_if (p a)) accounts

  abbrev pub has_level : ℕ → Account R → Bool
  has_level n a = a.kya_level_verified == n

  unfoldable pub get_kya_status_overview : ℕ → Caller → Table (Account R) → Result KyaStatusOverview
  unfolding require_operator
  get_kya_status_overview now current accounts = do
    require_operator current
    ok (record {
      total_agents = count_where (λ a. true) accounts;
      level_0 = count_where (has_level 0) accounts;
      level_1 = count_where (has_level 1) accounts;
      level_2 = count_where (has_level 2) accounts;
      expiring_within_7d =
          count_where
            (λ a.
              at_most a.attestation_expires_at (now + hours 168)
              && above a.attestation_expires_at now)
            accounts;
      expired = count_where (λ a. at_most a.attestation_expires_at now) accounts;
    })

  abbrev pub grant_level : ℕ → ℕ → Account R → Account R
  grant_level now expires a = record a {
    kya_level_verified = 2;
    attestation_expires_at = some expires;
    card_verified_at = some now;
  }

  -- `key` is the operator's private key: the file at the configured path, which may be missing, or
  -- a new one where no path is set. `agent_text` is the agent's id as a text.
  unfoldable pub issue_exchange_vc :
      (Credential → String)
      → (String → String → String)
      → (ℕ → String)
      → ℕ
      → String
      → ℕ
      → String
      → ℕ
      → String
      → Option String
      → Caller
      → Table (Account R)
      → Result (Table (Account R) × Credential)
  unfolding require_operator
  issue_exchange_vc canonical_vc sign_ed25519 isoformat now claim validity_days operator_did
        agent_id agent_text key current accounts =
      do
        require_operator current
        agent ← or_raise (find agent_id accounts) (http 404 account_not_found)
        let expires = now + hours (24 * validity_days)
        op_priv ← or_raise key (http 500 operator_key_not_found)
        let subject = subject_of agent_text agent.did
        ok (
          modify agent_id (grant_level now expires) accounts,
          signed_with canonical_vc sign_ed25519 operator_did op_priv
              (unsigned_vc isoformat operator_did subject now expires claim),
        )

  abbrev pub strip_level : Account R → Account R
  strip_level a = record a {
    kya_level_verified = 0;
    attestation_expires_at = none;
    card_verified_at = none;
  }

  unfoldable pub revoke_agent_identity :
      ℕ → Caller → Table (Account R) → Result (Table (Account R) × RevokeResponse)
  unfolding require_operator
  revoke_agent_identity agent_id current accounts = do
    require_operator current
    agent ← or_raise (find agent_id accounts) (http 404 account_not_found)
    ok (
      modify agent_id strip_level accounts,
      record { agent_id = agent_id; previous_level = agent.kya_level_verified; new_level = 0 },
    )
