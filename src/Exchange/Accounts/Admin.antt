-- ===== src/Exchange/Accounts/Admin.antt =====
-- The operator's actions on accounts, and what an owner may read: `suspend_account`,
-- `register_oracle`, `revoke_oracle`, `admin_link_principal`, `get_principal` and
-- `get_counterparty_diversity` of exchange/routes/accounts.py.
use a2a_settlement.Base.{
  ℕ, Bool, true, false, not, Option, none, some, List, [], ◌∷◌, ◌==◌, ◌&&◌, if◌then◌else◌,
}
use a2a_settlement.Table.{Table, find, modify}
use a2a_settlement.Exchange.Errors.{
  Result, ok, http, raise_if, or_raise, ◌>>=◌, ◌>>◌, account_not_found, not_permitted,
  cannot_suspend_operator, missing_field, wrong_status, principal_not_found,
}
use a2a_settlement.Exchange.Models.{Account, AccountStatus}
use a2a_settlement.Exchange.Config.{Floats}
use a2a_settlement.Exchange.Principals.{
  PrincipalLink, LinkSource, KyaLevel, link_agent_to_principal, invalidate_cache,
}
use a2a_settlement.Exchange.Accounts.Rows.{Caller, Registry, is_operator_status, is_active_status}
use Prim.Native.String.{String}

pub record OracleResponse : Type 0 where
  pub account_id : ℕ
  pub bot_name : String
  pub is_oracle : Bool

-- One entry of the answer of `get_principal`.
pub record PrincipalEntry (R : Type 0) : Type 0 where
  pub principal_id : ℕ
  pub kya_level : KyaLevel
  pub link_source : LinkSource
  pub confidence : R

pub record DiversityResponse (R : Type 0) : Type 0 where
  pub unique_counterparties_90d : ℕ
  pub counterparty_hhi : Option R
  pub diversity_score : Option R

module _ {R : Type 0} where
  abbrev pub suspend : Account R → Account R
  suspend a = record a { status = AccountStatus.suspended }

  unfoldable pub suspend_account : ℕ → Caller → Table (Account R) → Result (Table (Account R))
  suspend_account account_id current accounts = do
    raise_if (not (is_operator_status current.status)) (http 403 not_permitted)
    acct ← or_raise (find account_id accounts) (http 404 account_not_found)
    raise_if (is_operator_status acct.status) (http 400 cannot_suspend_operator)
    ok (modify account_id suspend accounts)

  abbrev pub set_oracle : Bool → Account R → Account R
  set_oracle b a = record a { is_oracle = b }

  -- `account_id` is missing from the body or empty where it is `none`.
  unfoldable pub register_oracle :
      Option ℕ → Caller → Table (Account R) → Result (Table (Account R) × OracleResponse)
  register_oracle account_id current accounts = do
    raise_if (not (is_operator_status current.status)) (http 403 not_permitted)
    k ← or_raise account_id (http 422 missing_field)
    acct ← or_raise (find k accounts) (http 404 account_not_found)
    raise_if (not (is_active_status acct.status)) (http 400 wrong_status)
    ok (
      modify k (set_oracle true) accounts,
      record { account_id = k; bot_name = acct.bot_name; is_oracle = true },
    )

  unfoldable pub revoke_oracle :
      ℕ → Caller → Table (Account R) → Result (Table (Account R) × OracleResponse)
  revoke_oracle account_id current accounts = do
    raise_if (not (is_operator_status current.status)) (http 403 not_permitted)
    acct ← or_raise (find account_id accounts) (http 404 account_not_found)
    ok (
      modify account_id (set_oracle false) accounts,
      record { account_id = account_id; bot_name = acct.bot_name; is_oracle = false },
    )

  -- The join with the principals drops a link whose principal is not stored.
  unfoldable pub entries_of : ℕ → Table KyaLevel → List (PrincipalLink R) → List (PrincipalEntry R)
  entries_of agent principals [] = []
  entries_of agent principals (l ∷ ls) =
      let rest = entries_of agent principals ls in
      elim (find l.principal_id principals) [
        | none ↦ rest
        | some level ↦
            if l.agent_id == agent
            then record {
              principal_id = l.principal_id;
              kya_level = level;
              link_source = l.link_source;
              confidence = l.confidence;
            }
              ∷ rest
            else rest
      ]

  unfoldable pub get_counterparty_diversity : ℕ → Table (Account R) → Result (DiversityResponse R)
  get_counterparty_diversity account_id accounts = do
    acct ← or_raise (find account_id accounts) (http 404 account_not_found)
    ok (record {
      unique_counterparties_90d = acct.unique_counterparties_90d;
      counterparty_hhi = acct.counterparty_hhi;
      diversity_score = acct.diversity_score;
    })

module _ {R : Type 0} (F : Floats R) where
  -- order_by(confidence.desc()); equal ones keep the order of the table.
  unfoldable pub insert_by_confidence :
      PrincipalEntry R → List (PrincipalEntry R) → List (PrincipalEntry R)
  insert_by_confidence x [] = x ∷ []
  insert_by_confidence x (y ∷ ys) =
      if F.lt x.confidence y.confidence then y ∷ insert_by_confidence x ys else x ∷ y ∷ ys

  unfoldable pub strongest_first : List (PrincipalEntry R) → List (PrincipalEntry R)
  unfolding insert_by_confidence
  strongest_first [] = []
  strongest_first (x ∷ xs) = insert_by_confidence x (strongest_first xs)

  unfoldable pub get_principal : ℕ → Caller → Registry R → Result (List (PrincipalEntry R))
  unfolding entries_of strongest_first
  get_principal account_id current reg = do
    acct ← or_raise (find account_id reg.db.accounts) (http 404 account_not_found)
    raise_if (not (current.id == account_id) && not (is_operator_status current.status))
        (http 403 not_permitted)
    ok (strongest_first (entries_of account_id reg.resolver.principals reg.resolver.links))

  unfoldable pub admin_link_principal :
      Option ℕ → Option ℕ → Caller → Registry R → Result (Registry R)
  admin_link_principal agent_id principal_id current reg = do
    raise_if (not (is_operator_status current.status)) (http 403 not_permitted)
    agent ← or_raise agent_id (http 422 missing_field)
    p ← or_raise principal_id (http 422 missing_field)
    acct ← or_raise (find agent reg.db.accounts) (http 404 account_not_found)
    level ← or_raise (find p reg.resolver.principals) (http 404 principal_not_found)
    let linked = link_agent_to_principal F agent p LinkSource.manual (F.literal 1 0) reg.resolver
    ok (record reg { resolver = record linked { cache = invalidate_cache agent linked.cache } })
