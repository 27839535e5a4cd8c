-- ===== src/Exchange/Accounts/Cards/Expiry.antt =====
-- About the expiry that `register_agent` and `update_agent_card` of exchange/routes/accounts.py
-- store: the earliest of a card's attestations that is still to come.
use a2a_settlement.Base.{
  ℕ, zero, suc, ◌≤◌, ◌<◌, ◌≡◌, refl, sym, ◌∙◌, Option, none, some, List, [], ◌∷◌, get_elem?, inl,
  inr, ltb, Bool-cases, Option-cases, arith, lt→ltb, le→ltb, if◌then◌else◌,
}
use a2a_settlement.Exchange.Identity.Verifier.{Stamp, text_of, Outside, parse_dt, Credential}
use a2a_settlement.Exchange.Accounts.Cards.{instant_of, earlier, earliest_future}
use Prim.Native.String.{String}
use mathlib.Core.Option.{some-injective}

-- Every attestation expires at `u` at the latest.
abbrev pub ExpiredBy : (Option String → ℕ) → ℕ → List Credential → Type 0
ExpiredBy instant u cs =
    (i : ℕ) (c : Credential) → get_elem? cs i ≡ some c → instant c.expires_at ≤ u

-- The dates of expiry are written in UTC.
abbrev pub IsUtc : (String → Option Stamp) → List Credential → Type 0
IsUtc fromisoformat cs =
    (i : ℕ) (c : Credential) (date : Stamp)
    → get_elem? cs i ≡ some c
    → fromisoformat (text_of c.expires_at) ≡ some date
    → date.wall ≡ date.instant

-- The verifier then reads the instant that a date denotes.
pub parse-instant :
    (o : Outside) (trusted : List String) (cs : List Credential)
    → IsUtc o.fromisoformat cs
    → (i : ℕ) (c : Credential) (t : ℕ) → get_elem? cs i ≡ some c
    → parse_dt o trusted c.expires_at ≡ some t
    → instant_of o.fromisoformat c.expires_at ≡ t
parse-instant o trusted cs utc i c t at read =
    elim (Option-cases (o.fromisoformat (text_of c.expires_at))) [
      | inl q ↦
          let clash : none ≡ some t = rw (q, parse_dt) at read in
          let impossible : ⊥ = cc in absurd impossible
      | inr (date, q) ↦
          let wall : date.wall ≡ t = some-injective _ _ (rw (q, parse_dt) at read) in
          rw (q, instant_of) (sym (utc i c date at q) ∙ wall)
    ]

earlier-le :
    (t u : ℕ) (rest : Option ℕ)
    → t ≤ u
    → ((v : ℕ) → rest ≡ some v → v ≤ u)
    → (w : ℕ) × (earlier t rest ≡ some w) × (w ≤ u)
earlier-le t u none h hs = (t, refl, h)
earlier-le t u (some v) h hs = (if ltb t v then t else v, refl, ground (arith, hs v refl))

earlier-some : (t : ℕ) (rest : Option ℕ) → (v : ℕ) × (earlier t rest ≡ some v)
earlier-some t none = (t, refl)
earlier-some t (some u) = (if ltb t u then t else u, refl)

module _ (instant : Option String → ℕ) (now : ℕ) where
  pub earliest_future-le :
      (u : ℕ) (cs : List Credential)
      → ExpiredBy instant u cs
      → (v : ℕ) → earliest_future instant now cs ≡ some v
      → v ≤ u
  unfolding earliest_future
  earliest_future-le u [] h v e = let impossible : ⊥ = cc in absurd impossible
  earliest_future-le u (c ∷ cs) h v e =
      let rest = earliest_future-le u cs (λ i d at. h (suc i) d at) in
      elim (Bool-cases (ltb now (instant c.expires_at))) [
        | inl future ↦
            let (w, found, small) = earlier-le (instant c.expires_at) u _ (h 0 c refl) rest in
            let same : w ≡ v = some-injective _ _ (sym found ∙ rw future at e) in rw (← same) small
        | inr past ↦ rest v (rw past at e)
      ]

  -- An attestation that is still to expire leaves an expiry to store.
  pub earliest_future-some :
      (cs : List Credential) (i : ℕ) (c : Credential)
      → get_elem? cs i ≡ some c
      → now < instant c.expires_at
      → (v : ℕ) × (earliest_future instant now cs ≡ some v)
  unfolding earliest_future
  earliest_future-some [] i c at h = let impossible : ⊥ = cc in absurd impossible
  earliest_future-some (d ∷ cs) zero c at h =
      let later : now < instant d.expires_at = rw (some-injective _ _ at) h in
      rw (lt→ltb now (instant d.expires_at) later) (earlier-some (instant d.expires_at) _)
  earliest_future-some (d ∷ cs) (suc i) c at h =
      let (v, found) = earliest_future-some cs i c at h in
      elim (Bool-cases (ltb now (instant d.expires_at))) [
        | inl future ↦ rw future (earlier-some (instant d.expires_at) _)
        | inr past ↦ (v, rw past found)
      ]

  -- None is stored if all have expired.
  pub earliest_future-none :
      (cs : List Credential) → ExpiredBy instant now cs → earliest_future instant now cs ≡ none
  unfolding earliest_future
  earliest_future-none [] h = refl
  earliest_future-none (c ∷ cs) h =
      rw (le→ltb now (instant c.expires_at) (h 0 c refl))
        (earliest_future-none cs (λ i d at. h (suc i) d at))
