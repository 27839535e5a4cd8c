-- ===== src/Exchange/Accounts/Cards/Lapses.antt =====
-- About `register_agent` of exchange/routes/accounts.py, its cards' expiry and the monitor of
-- exchange/identity/monitor.py.
use a2a_settlement.Base.{
  ℕ, ◌≤◌, ◌<◌, ◌≡◌, refl, sym, ◌∙◌, ap, Bool, true, false, none, some, List, inl, inr, leb,
  Bool-cases, arith,
}
use a2a_settlement.Table.{find}
use a2a_settlement.Exchange.Errors.{ok}
use a2a_settlement.Exchange.Models.{Account, Db}
use a2a_settlement.Exchange.Config.{Floats}
use a2a_settlement.Exchange.Identity.Verifier.{AgentCard, Outside, verify_agent_card}
use a2a_settlement.Exchange.Identity.Verifier.Levels.{level_two_exactly, level-le-two}
use a2a_settlement.Exchange.Identity.Verifier.Credentials.{credential_status-IsCurrent}
use a2a_settlement.Exchange.Identity.Monitor.{at_most, tick}
use a2a_settlement.Exchange.Identity.Monitor.Lapses.{tick_lapses, tick-before}
use a2a_settlement.Exchange.Accounts.Rows.{AccountSettings, Bcrypt}
use a2a_settlement.Exchange.Accounts.Cards.{
  instant_of, KyaRegisterResponse, new_agent, register_agent,
}
use Prim.Native.String.{String}
use mathlib.Core.Option.{some-injective}
use a2a_settlement.Exchange.Accounts.Cards.Expiry.{
  IsUtc, parse-instant, ExpiredBy, earliest_future-le, earliest_future-some,
}
use a2a_settlement.Exchange.Accounts.Cards.Verified.{agent_of, registered_row}

module _ {R : Type 0} (F : Floats R) (s : AccountSettings) (o : Outside)
    (trusted : List String) where
  -- The stored expiry of an agent at level 2 passes with its attestations.
  stored_expiry :
      (bc : Bcrypt) (now u : ℕ) (token salt : String) (card : AgentCard)
      → IsUtc o.fromisoformat card.attestations
      → ExpiredBy (instant_of o.fromisoformat) u card.attestations
      → (verify_agent_card o trusted now card).kya_level_verified ≡ 2
      → at_most (agent_of F s o trusted bc now token salt card).attestation_expires_at u ≡ true
  unfolding new_agent
  stored_expiry bc now u token salt card utc over two =
      let (_, _, (i, c, at, good)) = (level_two_exactly o trusted now card).0 two in
      let (from, till, _, expires, _, later, _) =
        credential_status-IsCurrent o trusted now c good in
      let later' : now < instant_of o.fromisoformat c.expires_at =
        rw (parse-instant o trusted card.attestations utc i c till at expires) later in
      let (v, found) =
        earliest_future-some (instant_of o.fromisoformat) now card.attestations i c at later' in
      let small =
        earliest_future-le (instant_of o.fromisoformat) now u card.attestations over v found in
      rw found (ground (arith, small))

  -- If a card's dates of expiry are written in UTC, an account that a card registers under a
  -- fresh id is at level 1 at most after a tick of the monitor at an instant by which all the
  -- card's attestations have expired.
  pub register_agent_lapses :
      (bc : Bcrypt) (now u recheck_hours : ℕ) (token salt : String) (id : ℕ) (card : AgentCard)
      (db : Db R) (r : Db R × KyaRegisterResponse R) (resolves : String → Bool) (a' : Account R)
      → IsUtc o.fromisoformat card.attestations
      → find id db.accounts ≡ none
      → register_agent F s
          (verify_agent_card o trusted)
          o.fromisoformat
          bc
          now
          token
          salt
          id
          (some card)
          db
        ≡ ok r
      → ExpiredBy (instant_of o.fromisoformat) u card.attestations
      → find id (tick resolves u recheck_hours r.0.accounts) ≡ some a'
      → a'.kya_level_verified ≤ 1
  unfolding new_agent
  register_agent_lapses bc now u recheck_hours token salt id card db r resolves a' utc new run over
        at =
      elim (tick-before resolves u recheck_hours id r.0.accounts a' at) [
        | inr downgraded ↦ omega arith
        | inl (a, there, level, expiry) ↦
            let same : a ≡ agent_of F s o trusted bc now token salt card =
              some-injective _ _
                (sym there ∙ registered_row F s o trusted bc now token salt id card db new r run) in
            let level' = level ∙ ap (λ x. x.kya_level_verified) same in
            let lapsed = tick_lapses resolves u recheck_hours id r.0.accounts a' at in
            let stored = ap (λ e. at_most e u) (expiry ∙ ap (λ x. x.attestation_expires_at) same) in
            elim (Bool-cases (leb 2 a'.kya_level_verified)) [
              | inr low ↦ ground (arith, low)
              | inl high ↦
                  let most = level-le-two o trusted now card in
                  let least : 2 ≤ a'.kya_level_verified = ground (arith, high) in
                  let two : (verify_agent_card o trusted now card).kya_level_verified ≡ 2 =
                    omega arith in
                  let due = stored ∙ stored_expiry bc now u token salt card utc over two in
                  let wrong : true ≡ false = sym (rw (due, high) refl) ∙ lapsed in
                  let impossible : ⊥ = cc in absurd impossible
            ]
      ]
