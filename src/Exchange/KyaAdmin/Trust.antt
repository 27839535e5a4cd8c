-- ===== src/Exchange/KyaAdmin/Trust.antt =====
-- About exchange/routes/kya_admin.py with the verifier of exchange/identity/vc_verifier.py: the
-- credentials that the exchange issues, and the issuers that it no longer trusts.
use a2a_settlement.Base.{
  ℕ, ◌+◌, ◌*◌, ◌≤◌, ◌<◌, ◌≡◌, ◌≢◌, refl, sym, ◌∙◌, ap, true, false, some, List, [], ◌∷◌, leb,
  is_some, inl, inr, Bool-cases, arith, le→ltb,
}
use a2a_settlement.Table.{Table, find}
use a2a_settlement.Table.Laws.{find-modify_self}
use a2a_settlement.Exchange.Errors.{
  ok, Ensures-ok, Ensures-raise_if, Ensures-or_raise, Ensures-then,
}
use a2a_settlement.Exchange.Models.{Account}
use a2a_settlement.Exchange.Config.{hours}
use a2a_settlement.Exchange.Identity.Issuers.{
  TrustedIssuer, get_issuer, get_active_dids, set_active, deactivate_issuer,
}
use a2a_settlement.Exchange.Identity.Verifier.{
  Credential, VerificationMethod, DidDocument, Outside, valid, extract_verification_method,
  is_member, text_of, check_issuer, check_dates, check_proof, credential_status,
}
use a2a_settlement.Exchange.Identity.Verifier.Credentials.{credential_status-IsCurrent}
use a2a_settlement.Exchange.Accounts.Rows.{Caller}
use a2a_settlement.Exchange.KyaAdmin.{
  unsigned_vc, signed_with, subject_of, grant_level, issue_exchange_vc, deactivate_trusted_issuer,
}
use Prim.Native.String.{String, ◌++◌}
use text.Mathlib.Text.{◌==◌ as str_eq}
use text.Mathlib.TextEquality.{eq_iff}
use mathlib.Core.Option.{some-injective}

lt→leb : (t u : ℕ) → t < u → leb u t ≡ false
lt→leb t u h = ground arith

-- No two issuers have one DID, as the primary key has it.
abbrev pub UniqueDids : List TrustedIssuer → Type 0
UniqueDids [] = Unit
UniqueDids (i ∷ is) = (is_some (get_issuer i.did is) ≡ false) × UniqueDids is

no_issuer-inactive :
    (did : String) (is : List TrustedIssuer)
    → is_some (get_issuer did is) ≡ false
    → is_member did (get_active_dids is) ≡ false
unfolding get_issuer get_active_dids is_member
no_issuer-inactive did [] h = refl
no_issuer-inactive did (i ∷ is) h =
    ground (arith, eq_iff i.did did, eq_iff did i.did, no_issuer-inactive did is)

deactivated-inactive :
    (did : String) (is : List TrustedIssuer)
    → UniqueDids is
    → is_member did (get_active_dids (set_active false did is)) ≡ false
unfolding set_active get_active_dids is_member
deactivated-inactive did [] u = refl
deactivated-inactive did (i ∷ is) u = elim (Bool-cases (str_eq i.did did)) [
  | inl here ↦ rw here (no_issuer-inactive did is (rw (← (eq_iff i.did did).0 here) u.0))
  | inr there ↦
      rw there (ground (arith, eq_iff i.did did, eq_iff did i.did, deactivated-inactive did is u.1))
]

deactivated_table :
    (did : String) (current : Caller) (is : List TrustedIssuer)
    → (is' : List TrustedIssuer) → deactivate_trusted_issuer did current is ≡ ok is'
    → is' ≡ set_active false did is
unfolding deactivate_trusted_issuer deactivate_issuer
deactivated_table did current is = Ensures-then _ _ λ operator. Ensures-raise_if _ _ _ λ found.
    Ensures-ok _ _ (elim (Bool-cases (is_some (get_issuer did is))) [
      | inl there ↦ rw there refl
      | inr missing ↦
          let wrong : true ≡ false = rw missing at found in
          let impossible : ⊥ = cc in absurd impossible
    ])

-- With unique DIDs of issuers, after a deactivation that succeeds no credential of that issuer
-- is found valid under the DIDs that are active.
pub deactivated_issuer_refused :
    (o : Outside) (did : String) (current : Caller) (is is' : List TrustedIssuer) (now : ℕ)
    (c : Credential)
    → UniqueDids is
    → deactivate_trusted_issuer did current is ≡ ok is'
    → text_of c.issuer ≡ did
    → credential_status o (get_active_dids is') now c ≢ valid
deactivated_issuer_refused o did current is is' now c unique run about accepted =
    let (_, _, _, _, _, _, known) =
      credential_status-IsCurrent o (get_active_dids is') now c accepted in
    let table = deactivated_table did current is is' run in
    let inactive : is_member (text_of c.issuer) (get_active_dids is') ≡ false =
      rw (about, table) (deactivated-inactive did is unique) in
    let impossible : ⊥ = cc in impossible

-- What is used of the outside world: a signature under the operator's private key verifies under
-- the public key that its document publishes as #key-1, and a date that is written is read back.
pub record OperatorLaws (o : Outside) (sign_ed25519 : String → String → String)
    (isoformat : ℕ → String) (operator_did key : String) : Type 0 where
  pub document : DidDocument
  pub method : VerificationMethod
  pub resolves : o.resolve operator_did ≡ some document
  pub published : extract_verification_method document (operator_did ++ "#key-1") ≡ some method
  pub signs :
      (message : String)
      → o.verify_ed25519 message (sign_ed25519 message key) method.public_key_multibase ≡ true
  pub reads :
      (t : ℕ)
      → o.fromisoformat (isoformat t) ≡ some (record { wall = t; instant = t; has_offset = true })

module _ (o : Outside) (sign_ed25519 : String → String → String) (isoformat : ℕ → String)
    (operator_did key : String) where
  -- The credential that is issued.
  abbrev issued : ℕ → ℕ → String → String → Credential
  issued now expires claim subject =
      signed_with o.canonical_vc sign_ed25519 operator_did key
        (unsigned_vc isoformat operator_did subject now expires claim)

  issued-valid :
      (now t expires : ℕ) (claim subject : String) (trusted : List String)
      → OperatorLaws o sign_ed25519 isoformat operator_did key
      → is_member operator_did trusted ≡ true
      → now ≤ t
      → t < expires
      → credential_status o trusted t (issued now expires claim subject) ≡ valid
  unfolding credential_status check_proof check_dates check_issuer
  issued-valid now t expires claim subject trusted laws known begun running =
      rw
        (
          laws.reads now,
          laws.reads expires,
          le→ltb t now begun,
          lt→leb t expires running,
          check_issuer,
          laws.resolves,
          laws.published,
          laws.signs,
          known,
        )
        refl

  issued_shape :
      {R : Type 0} (now : ℕ) (claim : String) (validity_days agent_id : ℕ) (agent_text : String)
      (current : Caller) (accounts : Table (Account R))
      → (r : Table (Account R) × Credential)
      → issue_exchange_vc o.canonical_vc sign_ed25519 isoformat now claim validity_days operator_did
          agent_id agent_text
          (some key)
          current
          accounts
        ≡ ok r
      → (subject : String) × (a : Account R) × (find agent_id r.0
          ≡ some (grant_level now (now + hours (24 * validity_days)) a))
        × (r.1 ≡ issued now (now + hours (24 * validity_days)) claim subject)
  unfolding issue_exchange_vc
  issued_shape now claim validity_days agent_id agent_text current accounts =
      Ensures-then _ _ λ operator. Ensures-or_raise _ _ _ λ a at.
        Ensures-or_raise _ _ _ λ op_priv own. Ensures-ok _ _ (
          subject_of agent_text a.did,
          a,
          find-modify_self agent_id (grant_level now (now + hours (24 * validity_days))) accounts a
              at,
          ap
              (λ k. signed_with o.canonical_vc sign_ed25519 operator_did k (
                unsigned_vc isoformat operator_did (subject_of agent_text a.did) now
                  (now + hours (24 * validity_days)) claim))
              (sym (some-injective _ _ own)),
        )

  -- If the operator's document publishes the key that verifies its signatures, dates are read
  -- back as they are written and the operator is trusted, a credential that the exchange issues
  -- is found valid at every instant within its validity; the issue leaves the agent's row at
  -- level 2, with the end of the validity as its expiry.
  pub issue_exchange_vc-valid :
      {R : Type 0} (now t validity_days agent_id : ℕ) (claim agent_text : String)
      (trusted : List String) (current : Caller) (accounts : Table (Account R))
      (r : Table (Account R) × Credential)
      → OperatorLaws o sign_ed25519 isoformat operator_did key
      → is_member operator_did trusted ≡ true
      → now ≤ t
      → t < now + hours (24 * validity_days)
      → issue_exchange_vc o.canonical_vc sign_ed25519 isoformat now claim validity_days operator_did
          agent_id agent_text
          (some key)
          current
          accounts
        ≡ ok r
      → (credential_status o trusted t r.1 ≡ valid)
        × ((a : Account R) × (find agent_id r.0 ≡ some a)
            × (a.kya_level_verified ≡ 2)
            × (a.attestation_expires_at ≡ some (now + hours (24 * validity_days))))
  issue_exchange_vc-valid now t validity_days agent_id claim agent_text trusted current accounts r
        laws known begun running run =
      let expires = now + hours (24 * validity_days) in
      let (subject, a, at, shape) =
        issued_shape now claim validity_days agent_id agent_text current accounts r run in
      (
        ap (credential_status o trusted t) shape
            ∙ issued-valid now t expires claim subject trusted laws known begun running,
        (grant_level now expires a, at, refl, refl),
      )
