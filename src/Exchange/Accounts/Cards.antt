-- ===== src/Exchange/Accounts/Cards.antt =====
-- Registration by agent card, and the card of an account: `register_agent`, `update_agent_card`,
-- `get_agent_card` and `get_verification_status` of exchange/routes/accounts.py. The card is the
-- validated request; `verify` is the injected verifier's `verify_agent_card`, and pydantic is
-- taken to read a date as `fromisoformat` does.
pub mod Expiry
pub mod Lapses
pub mod Verified
use a2a_settlement.Base.{
  ℕ, Bool, true, false, not, Option, none, some, List, [], ◌∷◌, ltb, leb, ◌==◌, ◌&&◌, ◌||◌, is_some,
  if◌then◌else◌,
}
use a2a_settlement.Table.{Table, find, modify}
use a2a_settlement.Exchange.Errors.{
  Result, ok, http, raise_if, or_raise, ◌>>=◌, ◌>>◌, bad_invite_code, name_taken, did_taken,
  bad_card, card_signature_invalid, naive_datetime, account_not_found, card_not_found,
  not_permitted,
}
use a2a_settlement.Exchange.Models.{Account, AccountStatus, AccountType, Db}
use a2a_settlement.Exchange.Config.{Floats}
use a2a_settlement.Exchange.Identity.Verifier.{
  Stamp, text_of, Credential, AgentCard, AgentVerification,
}
use a2a_settlement.Exchange.Accounts.Rows.{AccountSettings, Bcrypt, Caller, some_account}
use a2a_settlement.Exchange.Accounts.Register.{new_api_key, spend_limit, is_named, enrol}
use Prim.Native.String.{String}
use text.Mathlib.Text.{◌==◌ as str_eq}

pub record KyaRegisterResponse (R : Type 0) : Type 0 where
  pub id : ℕ
  pub account : Account R
  pub api_key : String
  pub starter_tokens : ℕ
  pub verification : AgentVerification

pub record AgentCardResponse : Type 0 where
  pub agent_id : ℕ
  pub kya_level_verified : ℕ
  pub card : String

pub record VerificationStatusResponse : Type 0 where
  pub agent_id : ℕ
  pub kya_level_verified : ℕ
  pub did : Option String
  pub card_verified_at : Option ℕ
  pub attestation_expires_at : Option ℕ

-- The instant that a date denotes.
abbrev pub instant_of : (String → Option Stamp) → Option String → ℕ
instant_of fromisoformat t = elim (fromisoformat (text_of t)) [
  | none ↦ 0
  | some date ↦ date.instant
]

-- `AgentCardModel` takes dates alone.
unfoldable pub are_dates : (String → Option Stamp) → List Credential → Bool
are_dates fromisoformat [] = true
are_dates fromisoformat (c ∷ cs) =
    is_some (fromisoformat (text_of c.expires_at)) && are_dates fromisoformat cs

abbrev pub is_naive : Option Stamp → Bool
is_naive none = false
is_naive (some date) = not date.has_offset

-- A date without an offset, which cannot be compared with the clock: a `TypeError`.
unfoldable pub meets_naive : (String → Option Stamp) → List Credential → Bool
meets_naive fromisoformat [] = false
meets_naive fromisoformat (c ∷ cs) =
    is_naive (fromisoformat (text_of c.expires_at)) || meets_naive fromisoformat cs

abbrev pub earlier : ℕ → Option ℕ → Option ℕ
earlier t none = some t
earlier t (some u) = some (if ltb t u then t else u)

-- `min(a.expires_at for a in card.attestations if a.expires_at > now)`, if there is one.
unfoldable pub earliest_future : (Option String → ℕ) → ℕ → List Credential → Option ℕ
earliest_future instant now [] = none
earliest_future instant now (c ∷ cs) =
    let rest = earliest_future instant now cs in
    if ltb now (instant c.expires_at) then earlier (instant c.expires_at) rest else rest

abbrev pub is_text : String → Option String → Bool
is_text t none = false
is_text t (some u) = str_eq u t

abbrev pub did_of : AgentCard → Option String
did_of card = if leb 1 card.kya_level then some card.id else none

module _ {R : Type 0} where
  abbrev pub has_did : String → Account R → Bool
  has_did did a = is_text did a.did

  -- `if card.kya_level >= 1 and card.id`
  abbrev pub is_did_taken : AgentCard → Table (Account R) → Bool
  is_did_taken card accounts =
      leb 1 card.kya_level && (not (str_eq card.id "") && some_account (has_did card.id) accounts)

  abbrev pub put_card : ℕ → AgentCard → AgentVerification → Option ℕ → Account R → Account R
  put_card now card vr expires a = record a {
    agent_card_json = some card.json;
    kya_level_verified = vr.kya_level_verified;
    card_verified_at = some now;
    attestation_expires_at = expires;
    did = if leb 1 card.kya_level then some card.id else a.did;
  }

  unfoldable pub get_agent_card : ℕ → Table (Account R) → Result AgentCardResponse
  get_agent_card account_id accounts = do
    acct ← or_raise (find account_id accounts) (http 404 account_not_found)
    card ← or_raise acct.agent_card_json (http 404 card_not_found)
    ok (record { agent_id = account_id; kya_level_verified = acct.kya_level_verified; card = card })

  unfoldable pub get_verification_status : ℕ → Table (Account R) → Result VerificationStatusResponse
  get_verification_status account_id accounts = do
    acct ← or_raise (find account_id accounts) (http 404 account_not_found)
    ok (record {
      agent_id = account_id;
      kya_level_verified = acct.kya_level_verified;
      did = acct.did;
      card_verified_at = acct.card_verified_at;
      attestation_expires_at = acct.attestation_expires_at;
    })

module _ {R : Type 0} (F : Floats R) (s : AccountSettings)
    (verify : ℕ → AgentCard → AgentVerification) (fromisoformat : String → Option Stamp) where
  unfoldable pub new_agent : ℕ → String → AgentCard → Account R
  unfolding earliest_future
  new_agent now hash card = record {
    bot_name = card.name;
    developer_id = card.id;
    developer_name = card.name;
    contact_email = "";
    api_key_hash = hash;
    previous_api_key_hash = none;
    key_rotated_at = none;
    description = some card.description;
    skills = card.skills;
    status = AccountStatus.active;
    reputation = F.literal 5 1;
    daily_spend_limit = spend_limit s.default_daily_spend_limit none;
    frozen_until = none;
    created_at = now;
    unique_counterparties_90d = 0;
    counterparty_hhi = none;
    diversity_score = none;
    is_oracle = false;
    kya_level_verified = (verify now card).kya_level_verified;
    did = did_of card;
    did_key = none;
    agent_card_json = some card.json;
    card_verified_at = some now;
    attestation_expires_at = earliest_future (instant_of fromisoformat) now card.attestations;
    account_type = AccountType.agent;
  }

  -- `body` is the result of `AgentCardModel.model_validate`.
  unfoldable pub register_agent :
      Bcrypt
      → ℕ
      → String
      → String
      → ℕ
      → Option AgentCard
      → Db R
      → Result (Db R × KyaRegisterResponse R)
  unfolding enrol new_agent are_dates meets_naive
  register_agent bc now token salt id body db = do
    card ← or_raise body (http 422 bad_card)
    raise_if (not (are_dates fromisoformat card.attestations)) (http 422 bad_card)
    raise_if (not (str_eq s.invite_code "")) (http 403 bad_invite_code)
    let api_key = new_api_key token
    let vr = verify now card
    raise_if (leb 1 card.kya_level && not vr.card_signature_valid) (http 401 card_signature_invalid)
    raise_if (meets_naive fromisoformat card.attestations) (http 500 naive_datetime)
    raise_if (some_account (is_named card.name) db.accounts) (http 409 name_taken)
    raise_if (is_did_taken card db.accounts) (http 409 did_taken)
    let account = new_agent now (bc.hashpw api_key salt) card
    ok (
      enrol now s.starter_tokens id account db,
      record {
        id = id;
        account = account;
        api_key = api_key;
        starter_tokens = s.starter_tokens;
        verification = vr;
      },
    )

  unfoldable pub update_agent_card :
      ℕ
      → ℕ
      → Option AgentCard
      → Caller
      → Table (Account R)
      → Result (Table (Account R) × AgentCardResponse)
  unfolding earliest_future are_dates meets_naive
  update_agent_card now account_id body current accounts = do
    raise_if (not (current.id == account_id)) (http 403 not_permitted)
    card ← or_raise body (http 422 bad_card)
    raise_if (not (are_dates fromisoformat card.attestations)) (http 422 bad_card)
    let vr = verify now card
    raise_if (meets_naive fromisoformat card.attestations) (http 500 naive_datetime)
    acct ← or_raise (find account_id accounts) (http 404 account_not_found)
    ok (
      modify account_id
          (put_card now card vr (earliest_future (instant_of fromisoformat) now card.attestations))
          accounts,
      record {
        agent_id = account_id;
        kya_level_verified = vr.kya_level_verified;
        card = card.json;
      },
    )
