-- ===== src/Exchange/Accounts/Register.antt =====
-- `register` of exchange/routes/accounts.py. The random key and salt and the ids of new rows are
-- arguments. Instants that the database fills in are those of the request.
pub mod Enrols
use a2a_settlement.Base.{
  ℕ, zero, suc, ◌==◌, Bool, true, false, not, Option, none, some, List, [], ◌∷◌, ltb, leb, ◌&&◌,
  if◌then◌else◌, is_some,
}
use a2a_settlement.Int.{pos}
use a2a_settlement.Table.{append}
use a2a_settlement.Exchange.Errors.{Result, ok, http, raise_if, ◌>>◌, bad_invite_code, name_taken}
use a2a_settlement.Exchange.Models.{
  Account, AccountStatus, AccountType, Balance, Transaction, TxType, Db,
}
use a2a_settlement.Exchange.Config.{Floats}
use a2a_settlement.Exchange.Ledger.{add_transaction}
use a2a_settlement.Exchange.Settlement.Common.{movement}
use a2a_settlement.Exchange.Principals.{
  Resolver, LinkSource, get_or_create_principal, link_agent_to_principal, kya_to_confidence,
}
use a2a_settlement.Exchange.Accounts.Rows.{AccountSettings, Bcrypt, Registry, some_account}
use Prim.Native.String.{String, ◌++◌}
use text.Mathlib.Text.{◌==◌ as str_eq}

pub record RegisterRequest : Type 0 where
  pub bot_name : String
  pub developer_id : String
  pub developer_name : String
  pub contact_email : String
  pub description : Option String
  pub skills : Option (List String)
  pub invite_code : Option String
  pub daily_spend_limit : Option ℕ
  pub account_type : AccountType

-- The row stands for RegisterAccountInfo, whose fields are its columns.
pub record RegisterResponse (R : Type 0) : Type 0 where
  pub id : ℕ
  pub account : Account R
  pub api_key : String
  pub starter_tokens : ℕ

abbrev pub new_api_key : String → String
new_api_key token = "ate_" ++ token

abbrev pub is_code : String → Option String → Bool
is_code wanted none = false
is_code wanted (some given) = str_eq given wanted

-- `settings.invite_code and req.invite_code != settings.invite_code`
abbrev pub bad_invite : String → Option String → Bool
bad_invite wanted given = not (str_eq wanted "") && not (is_code wanted given)

abbrev pub spend_limit : ℕ → Option ℕ → Option ℕ
spend_limit default (some limit) = some limit
spend_limit default none = if ltb 0 default then some default else none

abbrev pub or_empty : Option (List String) → List String
or_empty none = []
or_empty (some xs) = xs

-- The balance row of a new account.
abbrev pub starter_balance : ℕ → Balance
starter_balance tokens = record {
  available = pos tokens;
  held_in_escrow = pos 0;
  total_earned = 0;
  total_spent = 0;
}

module _ {R : Type 0} where
  abbrev pub is_named : String → Account R → Bool
  is_named name a = str_eq a.bot_name name

  -- The rows of a new account, with the transaction that mints its tokens.
  unfoldable pub enrol : ℕ → ℕ → ℕ → Account R → Db R → Db R
  enrol now tokens id a db =
      add_transaction (movement now none none (some id) tokens TxType.mint none) (record db {
        accounts = append id a db.accounts;
        balances = append id (starter_balance tokens) db.balances;
      })

module _ {R : Type 0} (F : Floats R) (s : AccountSettings) where
  unfoldable pub new_account : ℕ → String → RegisterRequest → Account R
  new_account now hash req = record {
    bot_name = req.bot_name;
    developer_id = req.developer_id;
    developer_name = req.developer_name;
    contact_email = req.contact_email;
    api_key_hash = hash;
    previous_api_key_hash = none;
    key_rotated_at = none;
    description = req.description;
    skills = or_empty req.skills;
    status = AccountStatus.active;
    reputation = F.literal 5 1;
    daily_spend_limit = spend_limit s.default_daily_spend_limit req.daily_spend_limit;
    frozen_until = none;
    created_at = now;
    unique_counterparties_90d = 0;
    counterparty_hhi = none;
    diversity_score = none;
    is_oracle = false;
    kya_level_verified = 0;
    did = none;
    did_key = none;
    agent_card_json = none;
    card_verified_at = none;
    attestation_expires_at = none;
    account_type = req.account_type;
  }

  abbrev pub confidence : Account R → R
  confidence a =
      if is_some a.did && leb 2 a.kya_level_verified
      then F.literal 9 1
      else kya_to_confidence F a.kya_level_verified

  -- The new account's developer is recorded, and linked to its principal.
  unfoldable pub link_developer : ℕ → ℕ → Account R → Resolver R → Resolver R
  link_developer id new_principal a st =
      let known = record st { developers = append id a.developer_id st.developers } in
      let (st', principal) =
        get_or_create_principal new_principal a.developer_id a.kya_level_verified known in
      link_agent_to_principal F id principal LinkSource.registration (confidence a) st'

  -- `token` and `salt` are random, `id` and `new_principal` the UUIDs of new rows.
  unfoldable pub register :
      Bcrypt
      → ℕ
      → String
      → String
      → ℕ
      → ℕ
      → RegisterRequest
      → Registry R
      → Result (Registry R × RegisterResponse R)
  unfolding enrol new_account link_developer
  register bc now token salt id new_principal req reg = do
    raise_if (bad_invite s.invite_code req.invite_code) (http 403 bad_invite_code)
    let api_key = new_api_key token
    let account = new_account now (bc.hashpw api_key salt) req
    raise_if (some_account (is_named req.bot_name) reg.db.accounts) (http 409 name_taken)
    ok (
      record reg {
        db = enrol now s.starter_tokens id account reg.db;
        resolver = link_developer id new_principal account reg.resolver;
      },
      record { id = id; account = account; api_key = api_key; starter_tokens = s.starter_tokens },
    )
