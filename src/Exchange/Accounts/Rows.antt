-- ===== src/Exchange/Accounts/Rows.antt =====
-- What the account handlers read and write: the settings, the authenticated caller, and bcrypt.
use a2a_settlement.Base.{ℕ, Bool, true, false, Option, [], ◌∷◌, ◌||◌}
use a2a_settlement.Table.{Table}
use a2a_settlement.Exchange.Models.{Account, AccountStatus, AccountType, GatewayClaim, Db}
use a2a_settlement.Exchange.Principals.{Resolver}
use Prim.Native.String.{String}

-- The part of exchange/config.py about accounts and keys. `aware` tells of the database under
-- `database_url` whether it gives instants back with their offset, as PostgreSQL does and SQLite,
-- the default, does not.
pub record AccountSettings : Type 0 where
  pub aware : Bool
  pub starter_tokens : ℕ
  pub default_daily_spend_limit : ℕ
  pub invite_code : String
  pub key_rotation_grace_minutes : ℕ
  pub require_signatures : Bool
  pub signature_max_age_seconds : ℕ

-- The functions of bcrypt, on a key and a salt, and on a key and a hash. `checkpw` raises on a text
-- that is not a hash, which is `none`.
pub record Bcrypt : Type 0 where
  pub hashpw : String → String → String
  pub checkpw : String → String → Option Bool

-- The tables that account handlers write, with the process's cache of verdicts. The resolver's
-- `developers` are the `developer_id` column of the accounts.
pub record Registry (R : Type 0) : Type 0 where
  pub db : Db R
  pub resolver : Resolver R
  pub claims : Table GatewayClaim

-- The dict that `authenticate_bot` returns.
pub record Caller : Type 0 where
  pub id : ℕ
  pub bot_name : String
  pub developer_id : String
  pub status : AccountStatus
  pub account_type : AccountType

abbrev pub is_operator_status : AccountStatus → Bool
is_operator_status AccountStatus.active = false
is_operator_status AccountStatus.suspended = false
is_operator_status AccountStatus.operator = true

abbrev pub is_active_status : AccountStatus → Bool
is_active_status AccountStatus.active = true
is_active_status AccountStatus.suspended = false
is_active_status AccountStatus.operator = false

abbrev pub is_gateway : AccountType → Bool
is_gateway AccountType.agent = false
is_gateway AccountType.gateway = true

module _ {R : Type 0} where
  -- Some account satisfies a condition.
  unfoldable pub some_account : (Account R → Bool) → Table (Account R) → Bool
  some_account p [] = false
  some_account p ((k, a) ∷ t) = p a || some_account p t
