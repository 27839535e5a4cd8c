-- ===== src/Exchange/Accounts/Register/Enrols.antt =====
-- About `register` of exchange/routes/accounts.py: the rows of a new account.
use a2a_settlement.Base.{
  ℕ, ◌≡◌, refl, ◌∙◌, ap, false, none, some, inl, inr, ◌==◌, arith, List, [], ◌∷◌, Bool-cases,
  Option-cases, ==→eq, ==→ne,
}
use a2a_settlement.Int.{int_laws, parts_of_eq, eq_of_parts}
use a2a_settlement.Table.{find, append}
use a2a_settlement.Table.Laws.{find-append_self, find-append_ne, total-append}
use a2a_settlement.Table.Keys.{UniqueKeys, UniqueKeys-append}
use a2a_settlement.Exchange.Errors.{Ensures-ok, Ensures-raise_if, ok}
use a2a_settlement.Exchange.Models.{Account, AccountStatus, Db}
use a2a_settlement.Exchange.Config.{Floats}
use a2a_settlement.Exchange.Ledger.{worth, collected, issued, add_transaction, net, gap}
use a2a_settlement.Exchange.Principals.{
  Resolver, PrincipalLink, LinkSource, is_link, confidence_of, put_link, link_agent_to_principal,
  get_or_create_principal, registered_principal,
}
use a2a_settlement.Exchange.Accounts.Rows.{AccountSettings, Bcrypt, Registry, some_account}
use a2a_settlement.Exchange.Accounts.Register.{
  RegisterRequest, RegisterResponse, new_api_key, is_named, starter_balance, enrol, new_account,
  register, confidence, link_developer,
}
use Prim.Native.String.{String}

module _ {R : Type 0} (now tokens id : ℕ) (a : Account R) (db : Db R) where
  -- The tokens are minted, so the books keep their balance.
  pub net-enrol : net (enrol now tokens id a db) ≡ net db
  unfolding net enrol add_transaction collected issued
  net-enrol = eq_of_parts _ _ (
      let grown = parts_of_eq (total-append worth id (starter_balance tokens) db.balances) in
      omega (int_laws, grown))

  pub gap-enrol : find id db.balances ≡ none → (j : ℕ) → gap j (enrol now tokens id a db) ≡ gap j db
  unfolding gap enrol add_transaction
  gap-enrol new j = elim (Bool-cases (j == id)) [
    | inl same ↦
        let e = ==→eq j id same in
        rw (e, find-append_self id (starter_balance tokens) db.balances new, new) refl
    | inr other ↦
        rw (find-append_ne j id (starter_balance tokens) db.balances (==→ne j id other)) refl
  ]

  -- The new rows are there under the new id, the books are as they were, and ids stay unique.
  abbrev pub Enrolled : Db R → Type 0
  Enrolled db' =
      (find id db'.accounts ≡ some a)
      × (find id db'.balances ≡ some (starter_balance tokens))
      × (db'.escrows ≡ db.escrows)
      × UniqueKeys db'.accounts
      × (net db' ≡ net db)
      × ((j : ℕ) → gap j db' ≡ gap j db)

  pub enrol-Enrolled :
      find id db.accounts ≡ none
      → find id db.balances ≡ none
      → UniqueKeys db.accounts
      → Enrolled (enrol now tokens id a db)
  unfolding enrol add_transaction
  enrol-Enrolled new new_balance keys = (
    find-append_self id a db.accounts new,
    find-append_self id (starter_balance tokens) db.balances new_balance,
    refl,
    UniqueKeys-append id a db.accounts new keys,
    net-enrol,
    gap-enrol new_balance,
  )

links-get_or_create_principal :
    {R : Type 0} (id : ℕ) (developer : String) (level : ℕ) (st : Resolver R)
    → (get_or_create_principal id developer level st).0.links ≡ st.links
unfolding get_or_create_principal
links-get_or_create_principal id developer level st =
    elim (Option-cases (registered_principal developer st.developers st.links)) [
      | inl missing ↦ rw (missing, get_or_create_principal) refl
      | inr (p, found) ↦ rw (found, get_or_create_principal) refl
    ]

module _ {R : Type 0} (F : Floats R) (s : AccountSettings) where
  -- A link is written, at least as strong where there was none.
  confidence_of-put_new :
      (agent q : ℕ) (source : LinkSource) (c : R) (ls : List (PrincipalLink R))
      → confidence_of agent q ls ≡ none
      → confidence_of agent q (put_link F agent q source c ls) ≡ some c
  unfolding confidence_of put_link
  confidence_of-put_new agent q source c [] new = ground arith
  confidence_of-put_new agent q source c (l ∷ ls) new = elim (Bool-cases (is_link agent q l)) [
    | inl found ↦
        let clash : some l.confidence ≡ none = rw found at new in
        let impossible : ⊥ = cc in absurd impossible
    | inr further ↦
        let deeper : confidence_of agent q ls ≡ none = rw further at new in
        rw (further, confidence_of, further) (confidence_of-put_new agent q source c ls deeper)
  ]

  -- The confidence with which a new account is linked to some principal.
  abbrev pub IsLinked : ℕ → R → List (PrincipalLink R) → Type 0
  IsLinked id c links = (p : ℕ) × (confidence_of id p links ≡ some c)

  link_developer-IsLinked :
      (id new_principal : ℕ) (a : Account R) (st : Resolver R)
      → ((p : ℕ) → confidence_of id p st.links ≡ none)
      → IsLinked id (confidence F s a) (link_developer F s id new_principal a st).links
  unfolding link_developer link_agent_to_principal
  link_developer-IsLinked id new_principal a st unlinked =
      let known = record st { developers = append id a.developer_id st.developers } in
      let found = get_or_create_principal new_principal a.developer_id a.kya_level_verified known in
      let same =
        links-get_or_create_principal new_principal a.developer_id a.kya_level_verified known in
      (
        found.1,
        confidence_of-put_new id found.1 LinkSource.registration (confidence F s a) found.0.links
            (ap (confidence_of id found.1) same ∙ unlinked found.1),
      )

  -- A registration that succeeds under a fresh id on a registry with unique account ids stores
  -- the new account, active, at level 0 and under a name that was free, with the hash of the key
  -- that it returns, and its starter balance; the net position, every account's gap and the
  -- escrows stay, ids stay unique, and the agent is linked to a principal with confidence 0.3.
  pub register-Enrolled :
      (bc : Bcrypt) (now : ℕ) (token salt : String) (id new_principal : ℕ) (req : RegisterRequest)
      (reg : Registry R)
      → find id reg.db.accounts ≡ none
      → find id reg.db.balances ≡ none
      → UniqueKeys reg.db.accounts
      → ((p : ℕ) → confidence_of id p reg.resolver.links ≡ none)
      → (r : Registry R × RegisterResponse R)
      → register F s bc now token salt id new_principal req reg ≡ ok r
      → Enrolled now s.starter_tokens id r.1.account reg.db r.0.db
        × (r.1.account.status ≡ AccountStatus.active)
        × (r.1.account.kya_level_verified ≡ 0)
        × (r.1.account.bot_name ≡ req.bot_name)
        × (some_account (is_named req.bot_name) reg.db.accounts ≡ false)
        × (r.1.account.api_key_hash ≡ bc.hashpw r.1.api_key salt)
        × IsLinked id (F.literal 3 1) r.0.resolver.links
  unfolding register new_account
  register-Enrolled bc now token salt id new_principal req reg new new_balance keys unlinked =
      Ensures-raise_if _ _ _ λ invited. Ensures-raise_if _ _ _ λ named. Ensures-ok _ _ (
        enrol-Enrolled now s.starter_tokens id
            (new_account F s now (bc.hashpw (new_api_key token) salt) req) reg.db new new_balance
            keys,
        refl,
        refl,
        refl,
        named,
        refl,
        link_developer-IsLinked id new_principal
            (new_account F s now (bc.hashpw (new_api_key token) salt) req) reg.resolver unlinked,
      )
