-- ===== src/Exchange/Accounts/Directory.antt =====
-- What anyone may read of the accounts: `directory` and `get_account` of exchange/routes/accounts.py.
-- The unique index on gateway and agent makes the join with the claims a condition.
use a2a_settlement.Base.{
  ℕ, Bool, true, not, Option, none, some, List, [], ◌∷◌, map, length, is_some, ◌&&◌, if◌then◌else◌,
}
use a2a_settlement.Table.{Table, find}
use a2a_settlement.Exchange.Errors.{Result, ok, http, or_raise, ◌>>=◌, account_not_found}
use a2a_settlement.Exchange.Models.{Account, AccountStatus, AccountType, GatewayClaim}
use a2a_settlement.Exchange.Config.{Floats}
use a2a_settlement.Exchange.Identity.Verifier.{is_member}
use a2a_settlement.Exchange.Settlement.Queries.{rows_where, sort_by, take_page}
use a2a_settlement.Exchange.Accounts.Rows.{is_active_status, is_gateway}
use a2a_settlement.Exchange.Accounts.Claims.{is_active_claim_of, is_listed, first_claim, all_claims}
use Prim.Native.String.{String}
use text.Mathlib.Text.{◌==◌ as str_eq}

pub record GatewayClaimInfo : Type 0 where
  pub gateway_id : ℕ
  pub gateway_name : String
  pub verified : Bool
  pub claimed_at : ℕ

-- The public columns alone, without the contact and the spending limit.
pub record DirectoryAccountResponse (R : Type 0) : Type 0 where
  pub id : ℕ
  pub bot_name : String
  pub developer_id : String
  pub developer_name : String
  pub description : Option String
  pub skills : List String
  pub status : AccountStatus
  pub reputation : R
  pub account_type : AccountType
  pub created_at : ℕ
  pub gateway_claims : Option (List GatewayClaimInfo)

pub record DirectoryResponse (R : Type 0) : Type 0 where
  pub bots : List (DirectoryAccountResponse R)
  pub count : ℕ

-- An empty list of claims is no claims.
abbrev pub claims_or_null : List GatewayClaimInfo → Option (List GatewayClaimInfo)
claims_or_null [] = none
claims_or_null (c ∷ cs) = some (c ∷ cs)

-- `skill in b.skills`, where a skill is asked for.
abbrev pub has_skill : Option String → List String → Bool
has_skill none skills = true
has_skill (some skill) skills = if str_eq skill "" then true else is_member skill skills

abbrev pub is_claimed_by : Option ℕ → ℕ → Table GatewayClaim → Bool
is_claimed_by none k claims = true
is_claimed_by (some gateway) k claims = is_some (first_claim (is_active_claim_of gateway k) claims)

module _ {R : Type 0} where
  abbrev pub name_or_empty : Option (Account R) → String
  name_or_empty none = ""
  name_or_empty (some a) = a.bot_name

  abbrev pub claim_info : Table (Account R) → ℕ × GatewayClaim → GatewayClaimInfo
  claim_info accounts (k, c) = record {
    gateway_id = c.gateway_id;
    gateway_name = name_or_empty (find c.gateway_id accounts);
    verified = c.verified;
    claimed_at = c.claimed_at;
  }

  -- `_directory_account_response`, with the active claims of the account.
  unfoldable pub directory_account_response :
      Table (Account R) → Table GatewayClaim → ℕ × Account R → DirectoryAccountResponse R
  unfolding all_claims
  directory_account_response accounts claims (k, a) = record {
    id = k;
    bot_name = a.bot_name;
    developer_id = a.developer_id;
    developer_name = a.developer_name;
    description = a.description;
    skills = a.skills;
    status = a.status;
    reputation = a.reputation;
    account_type = a.account_type;
    created_at = a.created_at;
    gateway_claims = claims_or_null (map (claim_info accounts) (all_claims (is_listed k) claims));
  }

  abbrev pub is_public : Option ℕ → Table GatewayClaim → ℕ × Account R → Bool
  is_public gateway claims (k, a) =
      is_active_status a.status
      && (not (is_gateway a.account_type) && is_claimed_by gateway k claims)

  abbrev pub is_less_reputed : Floats R → ℕ × Account R → ℕ × Account R → Bool
  is_less_reputed F (j, a) (k, b) = F.lt a.reputation b.reputation

  abbrev pub row_has_skill : Option String → ℕ × Account R → Bool
  row_has_skill skill (k, a) = has_skill skill a.skills

  -- The page is cut before the skill is looked at.
  unfoldable pub directory :
      Floats R
      → Option String
      → Option ℕ
      → ℕ
      → ℕ
      → Table (Account R)
      → Table GatewayClaim
      → DirectoryResponse R
  unfolding rows_where sort_by take_page directory_account_response
  directory F skill gateway_id limit offset accounts claims =
      let page =
        take_page offset limit
          (sort_by (is_less_reputed F) (rows_where (is_public gateway_id claims) accounts)) in
      let bots = rows_where (row_has_skill skill) page in
      record { bots = map (directory_account_response accounts claims) bots; count = length bots }

  unfoldable pub get_account :
      ℕ → Table (Account R) → Table GatewayClaim → Result (DirectoryAccountResponse R)
  unfolding directory_account_response
  get_account account_id accounts claims = do
    acct ← or_raise (find account_id accounts) (http 404 account_not_found)
    ok (directory_account_response accounts claims (account_id, acct))
