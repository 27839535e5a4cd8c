-- ===== src/Exchange/Accounts/Lockout.antt =====
-- About `suspend_account` of exchange/routes/accounts.py and `revoke_agent_identity` of
-- exchange/routes/kya_admin.py: what an account can no longer do afterwards.
use a2a_settlement.Base.{
  ℕ, ◌<◌, ◌≡◌, ◌≢◌, ◌⊎◌, refl, sym, ◌∙◌, ap, true, false, Option, some, inl, inr, arith,
}
use a2a_settlement.Int.{ℤ, pos_part}
use a2a_settlement.Table.{Table, find, modify}
use a2a_settlement.Table.Laws.{find-modify_self}
use a2a_settlement.Table.Keys.{UniqueKeys, UniqueKeys-modify}
use a2a_settlement.Exchange.Errors.{
  Ensures-ok, Ensures-raise_if, Ensures-then, Ensures-or_raise, ok,
}
use a2a_settlement.Exchange.Models.{Account, Db}
use a2a_settlement.Exchange.Config.{Settings, Context}
use a2a_settlement.Exchange.Kya.{check_kya_gate, required_kya_level}
use a2a_settlement.Exchange.KyaAdmin.{RevokeResponse, strip_level, revoke_agent_identity}
use a2a_settlement.Exchange.Settlement.Common.{is_active}
use a2a_settlement.Exchange.Settlement.Create.{EscrowRequest, EscrowResponse, create_escrow}
use a2a_settlement.Exchange.Accounts.Rows.{AccountSettings, Bcrypt, Caller}
use a2a_settlement.Exchange.Accounts.Auth.{AuthRequest, can_sign_in, authenticate_bot}
use a2a_settlement.Exchange.Accounts.Auth.SignIn.{authenticate_bot-Accepted}
use a2a_settlement.Exchange.Accounts.Admin.{suspend, suspend_account}
use a2a_settlement.Exchange.Accounts.Access.{create_escrow_access}
use Prim.Native.String.{String}
use mathlib.Core.Option.{some-injective}

module _ {R : Type 0} where
  suspended_row :
      (k : ℕ) (current : Caller) (accounts : Table (Account R))
      → (accounts' : Table (Account R)) → suspend_account k current accounts ≡ ok accounts'
      → (a : Account R) × (find k accounts' ≡ some (suspend a))
        × (accounts' ≡ modify k suspend accounts)
  unfolding suspend_account
  suspended_row k current accounts = Ensures-raise_if _ _ _ λ operator.
      Ensures-or_raise _ _ _ λ a at.
        Ensures-raise_if _ _ _
          λ subject. Ensures-ok _ _ (a, find-modify_self k suspend accounts a at, refl)

  module _ (s : AccountSettings) (bc : Bcrypt) (parse_int : String → Option ℤ)
      (hmac_sha256 : String → String → String) (strip : String → String) (ctx : Context R) where
    -- With unique account ids, after a suspension that succeeds no request signs in as the
    -- account, and no creation of an escrow with the account as provider succeeds on a database
    -- with these accounts.
    pub suspend_account_locks_out :
        (k now requester id : ℕ) (current c : Caller) (accounts accounts' : Table (Account R))
        (rq : AuthRequest) (req : EscrowRequest) (db : Db R) (r : Db R × EscrowResponse)
        → UniqueKeys accounts
        → suspend_account k current accounts ≡ ok accounts'
        → c.id ≡ k
        → db.accounts ≡ accounts'
        → req.provider_id ≡ k
        → (authenticate_bot s bc parse_int hmac_sha256 strip now rq accounts' ≢ ok c)
          × (create_escrow ctx requester id req db ≢ ok r)
    suspend_account_locks_out k now requester id current c accounts accounts' rq req db r keys run
          same_id same_accounts provider =
        let (a, at, written) = suspended_row k current accounts accounts' run in
        (
          λ signed_in.
              let keys' : UniqueKeys accounts' =
                rw written (UniqueKeys-modify k suspend accounts keys) in
              let (key, shown, signed, (b, found, named, status, taken)) =
                authenticate_bot-Accepted s bc parse_int hmac_sha256 strip now rq accounts' keys' c
                  signed_in in
              let same : suspend a ≡ b =
                some-injective _ _ (sym at ∙ ap (λ i. find i accounts') (sym same_id) ∙ found) in
              let wrong : false ≡ true = ap (λ x. can_sign_in x.status) same ∙ status in
              let impossible : ⊥ = cc in impossible,
          λ opened.
              let ((b, found, active), _) = create_escrow_access ctx requester id req db r opened in
              let same : suspend a ≡ b = some-injective _ _ (
                sym at
                ∙ ap (λ i. find i accounts') (sym provider)
                ∙ ap (λ t. find req.provider_id t) (sym same_accounts)
                ∙ found) in
              let wrong : false ≡ true = ap (λ x. is_active x.status) same ∙ active in
              let impossible : ⊥ = cc in impossible,
        )

  revoked_row :
      (k : ℕ) (current : Caller) (accounts : Table (Account R))
      → (r : Table (Account R) × RevokeResponse) → revoke_agent_identity k current accounts ≡ ok r
      → (a : Account R) × (find k r.0 ≡ some (strip_level a))
  unfolding revoke_agent_identity
  revoked_row k current accounts = Ensures-then _ _ λ operator.
      Ensures-or_raise _ _ _
        λ a at. Ensures-ok _ _ (a, find-modify_self k strip_level accounts a at)

  required-pos :
      (st : Settings R) (amount : ℕ)
      → st.kya_escrow_tier1_max < amount
      → 0 < required_kya_level st amount
  unfolding required_kya_level
  required-pos st amount above = ground (arith, above)

  gate_shut :
      (st : Settings R) (db : Db R) (requester provider k amount : ℕ) (a : Account R)
      → st.kya_enabled ≡ true
      → st.kya_escrow_tier1_max < amount
      → find k db.accounts ≡ some (strip_level a)
      → (requester ≡ k) ⊎ (provider ≡ k)
      → (check_kya_gate st db requester provider amount).allowed ≡ false
  unfolding check_kya_gate
  gate_shut st db requester provider k amount a on above at (inl same) =
      let here : find requester db.accounts ≡ some (strip_level a) = rw same at in
      let needed = required-pos st amount above in rw (on, here) (ground (arith, needed))
  gate_shut st db requester provider k amount a on above at (inr same) =
      let here : find provider db.accounts ≡ some (strip_level a) = rw same at in
      let needed = required-pos st amount above in rw (on, here) (ground (arith, needed))

  -- After a revocation of an agent's identity that succeeds, no creation of an escrow above the
  -- first tier with the agent as either party succeeds on a database with these accounts, if the
  -- gate is enabled.
  pub revoke_agent_identity_shuts_gate :
      (k requester id : ℕ) (current : Caller) (accounts : Table (Account R))
      (revoked : Table (Account R) × RevokeResponse) (ctx : Context R) (req : EscrowRequest)
      (db : Db R) (r : Db R × EscrowResponse)
      → revoke_agent_identity k current accounts ≡ ok revoked
      → db.accounts ≡ revoked.0
      → (requester ≡ k) ⊎ (req.provider_id ≡ k)
      → ctx.settings.kya_enabled ≡ true
      → ctx.settings.kya_escrow_tier1_max < pos_part req.amount
      → create_escrow ctx requester id req db ≢ ok r
  revoke_agent_identity_shuts_gate k requester id current accounts revoked ctx req db r run same
        party on above opened =
      let (a, at) = revoked_row k current accounts revoked run in
      let here = ap (find k) same ∙ at in
      let shut =
        gate_shut ctx.settings db requester req.provider_id k (pos_part req.amount) a on above here
          party in
      let (_, allowed) = create_escrow_access ctx requester id req db r opened in
      let impossible : ⊥ = cc in impossible
