-- ===== src/Exchange/Accounts/Cards/Verified.antt =====
-- About `register_agent` of exchange/routes/accounts.py with the verifier of
-- exchange/identity/vc_verifier.py.
use a2a_settlement.Base.{
  ℕ, ◌≤◌, ◌≡◌, ◌≢◌, refl, true, false, not, none, some, List, get_elem?, leb, ◌&&◌, arith,
  and_false, if◌then◌else◌,
}
use a2a_settlement.Table.{find}
use a2a_settlement.Table.Laws.{find-append_self}
use a2a_settlement.Exchange.Errors.{
  ok, Ensures-ok, Ensures-raise_if, or_raise, raise_if, ◌>>=◌, ◌>>◌,
}
use a2a_settlement.Exchange.Models.{Account, Db}
use a2a_settlement.Exchange.Config.{Floats}
use a2a_settlement.Exchange.Ledger.{add_transaction}
use a2a_settlement.Exchange.Identity.Verifier.{
  Credential, AgentCard, Outside, valid, credential_status, verify_agent_card,
}
use a2a_settlement.Exchange.Identity.Verifier.Levels.{
  IsCardSigned, level_two_exactly, signed-card_signature_valid,
}
use a2a_settlement.Exchange.Accounts.Rows.{AccountSettings, Bcrypt, some_account}
use a2a_settlement.Exchange.Accounts.Register.{new_api_key, is_named, enrol}
use a2a_settlement.Exchange.Accounts.Cards.{
  are_dates, meets_naive, instant_of, KyaRegisterResponse, is_did_taken, new_agent, register_agent,
}
use Prim.Native.String.{String}
use text.Mathlib.Text.{◌==◌ as str_eq}
use a2a_settlement.Exchange.Accounts.Cards.Expiry.{ExpiredBy, earliest_future-none}

module _ {R : Type 0} (F : Floats R) (s : AccountSettings) (o : Outside)
    (trusted : List String) where
  -- The account that a card registers.
  abbrev pub agent_of : Bcrypt → ℕ → String → String → AgentCard → Account R
  agent_of bc now token salt card =
      new_agent F s (verify_agent_card o trusted) o.fromisoformat now
        (bc.hashpw (new_api_key token) salt) card

  pub registered_row :
      (bc : Bcrypt) (now : ℕ) (token salt : String) (id : ℕ) (card : AgentCard) (db : Db R)
      → find id db.accounts ≡ none
      → (r : Db R × KyaRegisterResponse R)
      → register_agent F s
          (verify_agent_card o trusted)
          o.fromisoformat
          bc
          now
          token
          salt
          id
          (some card)
          db
        ≡ ok r
      → find id r.0.accounts ≡ some (agent_of bc now token salt card)
  unfolding register_agent enrol add_transaction or_raise ◌>>=◌
  registered_row bc now token salt id card db new = Ensures-raise_if _ _ _ λ dates.
      Ensures-raise_if _ _ _ λ open_house. Ensures-raise_if _ _ _ λ signed.
        Ensures-raise_if _ _ _ λ offsets. Ensures-raise_if _ _ _ λ named.
          Ensures-raise_if _ _ _ λ did.
            Ensures-ok _ _ (find-append_self id (agent_of bc now token salt card) db.accounts new)

  pub register_agent_returns :
      (bc : Bcrypt) (now : ℕ) (token salt : String) (id : ℕ) (card : AgentCard) (db : Db R) (i : ℕ)
      (c : Credential)
      → are_dates o.fromisoformat card.attestations ≡ true
      → meets_naive o.fromisoformat card.attestations ≡ false
      → find id db.accounts ≡ none
      → str_eq s.invite_code "" ≡ true
      → some_account (is_named card.name) db.accounts ≡ false
      → is_did_taken card db.accounts ≡ false
      → 2 ≤ card.kya_level
      → IsCardSigned o trusted card
      → get_elem? card.attestations i ≡ some c
      → credential_status o trusted now c ≡ valid
      → (r : Db R × KyaRegisterResponse R) × (register_agent F s
            (verify_agent_card o trusted)
            o.fromisoformat
            bc
            now
            token
            salt
            id
            (some card)
            db
          ≡ ok r)
        × (find id r.0.accounts ≡ some (agent_of bc now token salt card))
        × ((verify_agent_card o trusted now card).kya_level_verified ≡ 2)
  unfolding register_agent enrol add_transaction or_raise raise_if ◌>>=◌ ◌>>◌
  register_agent_returns bc now token salt id card db i c dates offsets new open_house named did
        high signed at good =
      let two = (level_two_exactly o trusted now card).1 (high, signed, (i, c, at, good)) in
      let right = signed-card_signature_valid o trusted now card (omega arith) signed in
      let admitted : (leb 1 card.kya_level
            && not (verify_agent_card o trusted now card).card_signature_valid)
          ≡ false =
        rw right (and_false (leb 1 card.kya_level)) in
      let account = agent_of bc now token salt card in
      (
        (
          enrol now s.starter_tokens id account db,
          record {
            id = id;
            account = account;
            api_key = new_api_key token;
            starter_tokens = s.starter_tokens;
            verification = verify_agent_card o trusted now card;
          },
        ),
        rw (dates, open_house, admitted, offsets, named, did) refl,
        find-append_self id account db.accounts new,
        two,
      )

  -- Where no invite code is set, a signed card of level 2 at least with a fresh name and DID,
  -- all of whose attestations have dates of expiry with an offset, is registered at level 2
  -- under a fresh id on the strength of any one valid credential, also one whose subject is not
  -- the card's DID.
  pub register_agent_borrowed :
      (bc : Bcrypt) (now : ℕ) (token salt subject : String) (id : ℕ) (card : AgentCard) (db : Db R)
      (i : ℕ) (c : Credential)
      → are_dates o.fromisoformat card.attestations ≡ true
      → meets_naive o.fromisoformat card.attestations ≡ false
      → find id db.accounts ≡ none
      → str_eq s.invite_code "" ≡ true
      → some_account (is_named card.name) db.accounts ≡ false
      → is_did_taken card db.accounts ≡ false
      → 2 ≤ card.kya_level
      → IsCardSigned o trusted card
      → get_elem? card.attestations i ≡ some c
      → credential_status o trusted now c ≡ valid
      → c.credential_subject ≡ some subject
      → subject ≢ card.id
      → (r : Db R × KyaRegisterResponse R) × (register_agent F s
            (verify_agent_card o trusted)
            o.fromisoformat
            bc
            now
            token
            salt
            id
            (some card)
            db
          ≡ ok r)
        × (a : Account R) × (find id r.0.accounts ≡ some a)
        × (a.kya_level_verified ≡ 2)
        × (a.did ≡ some card.id)
  unfolding new_agent
  register_agent_borrowed bc now token salt subject id card db i c dates offsets new open_house
        named did high signed at good about other =
      let (r, run, there, two) =
        register_agent_returns bc now token salt id card db i c dates offsets new open_house named
          did high signed at good in
      let named_did : (if leb 1 card.kya_level then some card.id else none) ≡ some card.id =
        ground (arith, high) in
      (r, run, agent_of bc now token salt card, there, two, named_did)

  -- Where no invite code is set, a signed card of level 2 at least with a fresh name and DID,
  -- all of whose attestations have dates of expiry with an offset, and one of whose credentials
  -- is found valid though all have expired at the instants that their dates denote, is
  -- registered at level 2 under a fresh id, with no expiry.
  pub register_agent_expired :
      (bc : Bcrypt) (now : ℕ) (token salt : String) (id : ℕ) (card : AgentCard) (db : Db R) (i : ℕ)
      (c : Credential)
      → are_dates o.fromisoformat card.attestations ≡ true
      → meets_naive o.fromisoformat card.attestations ≡ false
      → find id db.accounts ≡ none
      → str_eq s.invite_code "" ≡ true
      → some_account (is_named card.name) db.accounts ≡ false
      → is_did_taken card db.accounts ≡ false
      → 2 ≤ card.kya_level
      → IsCardSigned o trusted card
      → get_elem? card.attestations i ≡ some c
      → credential_status o trusted now c ≡ valid
      → ExpiredBy (instant_of o.fromisoformat) now card.attestations
      → (r : Db R × KyaRegisterResponse R) × (register_agent F s
            (verify_agent_card o trusted)
            o.fromisoformat
            bc
            now
            token
            salt
            id
            (some card)
            db
          ≡ ok r)
        × (a : Account R) × (find id r.0.accounts ≡ some a)
        × (a.kya_level_verified ≡ 2)
        × (a.attestation_expires_at ≡ none)
  unfolding new_agent
  register_agent_expired bc now token salt id card db i c dates offsets new open_house named did
        high signed at good over =
      let (r, run, there, two) =
        register_agent_returns bc now token salt id card db i c dates offsets new open_house named
          did high signed at good in
      (
        r,
        run,
        agent_of bc now token salt card,
        there,
        two,
        earliest_future-none (instant_of o.fromisoformat) now card.attestations over,
      )
