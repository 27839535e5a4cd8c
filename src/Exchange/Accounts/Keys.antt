-- ===== src/Exchange/Accounts/Keys.antt =====
-- Skills, keys and DIDs of an account: `update_skills`, `rotate_key`, `register_did_key` and
-- `rotate_did_key` of exchange/routes/accounts.py.
use a2a_settlement.Base.{ℕ, not, Option, none, some, List, ◌==◌}
use a2a_settlement.Table.{Table, find, modify}
use a2a_settlement.Exchange.Errors.{
  Result, ok, http, raise_if, or_raise, ◌>>=◌, ◌>>◌, account_not_found, not_permitted, bad_did_key,
}
use a2a_settlement.Exchange.Models.{Account}
use a2a_settlement.Exchange.Accounts.Rows.{AccountSettings, Bcrypt, Caller}
use a2a_settlement.Exchange.Accounts.Register.{new_api_key}
use Prim.Native.String.{String}
use text.Mathlib.Text.{starts_with}

pub record RotateKeyResponse : Type 0 where
  pub api_key : String
  pub grace_period_minutes : ℕ

-- The answer names the former DID too; `register_did_key` answers with the new one alone.
pub record DidKeyResponse : Type 0 where
  pub account_id : ℕ
  pub old_did_key : Option String
  pub new_did_key : String

abbrev pub text_or_empty : Option String → String
text_or_empty none = ""
text_or_empty (some t) = t

module _ {R : Type 0} where
  abbrev pub rekey : ℕ → String → Account R → Account R
  rekey now hash a = record a {
    previous_api_key_hash = some a.api_key_hash;
    key_rotated_at = some now;
    api_key_hash = hash;
  }

  unfoldable pub update_skills :
      Caller → List String → Table (Account R) → Result (Table (Account R) × List String)
  update_skills current skills accounts = do
    acct ← or_raise (find current.id accounts) (http 404 account_not_found)
    ok (modify current.id (λ a. record a { skills = skills }) accounts, skills)

  unfoldable pub rotate_key :
      AccountSettings
      → Bcrypt
      → ℕ
      → String
      → String
      → Caller
      → Table (Account R)
      → Result (Table (Account R) × RotateKeyResponse)
  rotate_key s bc now token salt current accounts = do
    let new_key = new_api_key token
    acct ← or_raise (find current.id accounts) (http 404 account_not_found)
    ok (
      modify current.id (rekey now (bc.hashpw new_key salt)) accounts,
      record { api_key = new_key; grace_period_minutes = s.key_rotation_grace_minutes },
    )

  -- `json_body` is the `did_key` of the dict under "_json_body" in the request's scope.
  unfoldable pub register_did_key :
      Option String → ℕ → Caller → Table (Account R) → Result (Table (Account R) × DidKeyResponse)
  register_did_key json_body account_id current accounts = do
    let did_key = text_or_empty json_body
    raise_if (not (current.id == account_id)) (http 403 not_permitted)
    raise_if (not (starts_with did_key "did:key:")) (http 400 bad_did_key)
    acct ← or_raise (find account_id accounts) (http 404 account_not_found)
    ok (
      modify account_id (λ a. record a { did_key = some did_key }) accounts,
      record { account_id = account_id; old_did_key = acct.did_key; new_did_key = did_key },
    )

  -- The handler reads its arguments from an empty dict, `body = {}`.
  unfoldable pub rotate_did_key :
      ℕ → Caller → Table (Account R) → Result (Table (Account R) × DidKeyResponse)
  rotate_did_key account_id current accounts = do
    raise_if (not (current.id == account_id)) (http 403 not_permitted)
    let new_did_key = text_or_empty none
    raise_if (not (starts_with new_did_key "did:key:")) (http 400 bad_did_key)
    acct ← or_raise (find account_id accounts) (http 404 account_not_found)
    ok (
      modify account_id (λ a. record a { did_key = some new_did_key }) accounts,
      record { account_id = account_id; old_did_key = acct.did_key; new_did_key = new_did_key },
    )
