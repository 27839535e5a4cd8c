-- ===== src/Exchange/Accounts/Claims.antt =====
-- The claims of gateways on agents: `claim_agent`, `unclaim_agent` and `list_claims` of
-- exchange/routes/accounts.py.
pub mod Unique
use a2a_settlement.Base.{
  ℕ, Bool, true, false, not, Option, none, some, List, [], ◌∷◌, ◌==◌, ◌&&◌, if◌then◌else◌,
}
use a2a_settlement.Table.{Table, find, modify, append}
use a2a_settlement.Exchange.Errors.{
  Result, ok, err, http, raise_if, or_raise, ◌>>=◌, ◌>>◌, account_not_found, not_a_gateway,
  not_an_agent, already_claimed, bad_agent_key, hash_unreadable, no_active_claim,
}
use a2a_settlement.Exchange.Models.{Account, ClaimStatus, GatewayClaim}
use a2a_settlement.Exchange.Accounts.Rows.{Bcrypt, Caller, is_gateway}
use Prim.Native.String.{String}
use text.Mathlib.Text.{◌==◌ as str_eq}

pub record ClaimResponse : Type 0 where
  pub claim_id : ℕ
  pub claim : GatewayClaim

abbrev pub is_claim_active : ClaimStatus → Bool
is_claim_active ClaimStatus.claim_active = true
is_claim_active ClaimStatus.claim_released = false

abbrev pub is_claim_of : ℕ → ℕ → GatewayClaim → Bool
is_claim_of gateway account c = c.gateway_id == gateway && c.account_id == account

abbrev pub is_active_claim_of : ℕ → ℕ → GatewayClaim → Bool
is_active_claim_of gateway account c = is_claim_of gateway account c && is_claim_active c.status

-- The first row that satisfies a condition, with its key.
unfoldable pub first_claim : (GatewayClaim → Bool) → Table GatewayClaim → Option (ℕ × GatewayClaim)
first_claim p [] = none
first_claim p ((k, c) ∷ t) = if p c then some (k, c) else first_claim p t

-- All of them.
unfoldable pub all_claims : (GatewayClaim → Bool) → Table GatewayClaim → Table GatewayClaim
all_claims p [] = []
all_claims p ((k, c) ∷ t) = if p c then (k, c) ∷ all_claims p t else all_claims p t

abbrev pub is_existing_active : Option (ℕ × GatewayClaim) → Bool
is_existing_active none = false
is_existing_active (some (k, c)) = is_claim_active c.status

-- Whether the agent's key proves the claim. No key, or an empty one, proves nothing; a wrong one is
-- an error, and so is a hash that bcrypt cannot read, which nothing catches.
abbrev pub check_claim_key : Bcrypt → Option String → String → Result Bool
check_claim_key bc none hash = ok false
check_claim_key bc (some key) hash =
    if str_eq key "" then ok false else elim (bc.checkpw key hash) [
      | some true ↦ ok true
      | some false ↦ err (http 401 bad_agent_key)
      | none ↦ err (http 500 hash_unreadable)
    ]

abbrev pub reactivate : Bool → GatewayClaim → GatewayClaim
reactivate verified c = record c { status = ClaimStatus.claim_active; verified = verified }

abbrev pub release_claim : GatewayClaim → GatewayClaim
release_claim c = record c { status = ClaimStatus.claim_released }

abbrev pub new_claim : ℕ → ℕ → ℕ → Bool → GatewayClaim
new_claim now gateway account verified = record {
  gateway_id = gateway;
  account_id = account;
  verified = verified;
  status = ClaimStatus.claim_active;
  claimed_at = now;
}

-- The existing row is used again, or a new one inserted.
abbrev pub put_claim :
    ℕ
    → ℕ
    → ℕ
    → ℕ
    → Bool
    → Option (ℕ × GatewayClaim)
    → Table GatewayClaim
    → Table GatewayClaim × ClaimResponse
put_claim now id gateway account verified (some (k, c)) claims =
    (modify k (reactivate verified) claims, record { claim_id = k; claim = reactivate verified c })
put_claim now id gateway account verified none claims =
    let c = new_claim now gateway account verified in
    (append id c claims, record { claim_id = id; claim = c })

module _ {R : Type 0} where
  -- `agent_api_key` is that of the body, if there is one.
  unfoldable pub claim_agent :
      Bcrypt
      → ℕ
      → ℕ
      → ℕ
      → Option String
      → Caller
      → Table (Account R)
      → Table GatewayClaim
      → Result (Table GatewayClaim × ClaimResponse)
  claim_agent bc now id account_id agent_api_key current accounts claims = do
    raise_if (not (is_gateway current.account_type)) (http 403 not_a_gateway)
    agent ← or_raise (find account_id accounts) (http 404 account_not_found)
    raise_if (is_gateway agent.account_type) (http 400 not_an_agent)
    let existing = first_claim (is_claim_of current.id account_id) claims
    raise_if (is_existing_active existing) (http 409 already_claimed)
    verified ← check_claim_key bc agent_api_key agent.api_key_hash
    ok (put_claim now id current.id account_id verified existing claims)

unfoldable pub unclaim_agent : ℕ → Caller → Table GatewayClaim → Result (Table GatewayClaim)
unclaim_agent account_id current claims = do
  found ←
      or_raise (first_claim (is_active_claim_of current.id account_id) claims)
        (http 404 no_active_claim)
  ok (modify found.0 release_claim claims)

abbrev pub is_listed : ℕ → GatewayClaim → Bool
is_listed account_id c = c.account_id == account_id && is_claim_active c.status

unfoldable pub list_claims : ℕ → Table GatewayClaim → Table GatewayClaim
unfolding all_claims
list_claims account_id claims = all_claims (is_listed account_id) claims
