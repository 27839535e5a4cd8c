-- ===== src/Exchange/Identity/Monitor/Lapses.antt =====
-- About `KYAMonitor` of exchange/identity/monitor.py: what is left after a tick.
use a2a_settlement.Base.{
  ℕ, ◌≡◌, refl, sym, ◌∙◌, ap, Bool, true, false, Option, none, some, List, [], ◌∷◌, contains, ◌==◌,
  ◌&&◌, leb, inl, inr, Bool-cases, Option-cases, ==→eq, ==→ne, ==_refl, or_true, ◌⊎◌,
}
use a2a_settlement.Table.{Table, find, modify, select}
use a2a_settlement.Table.Laws.{find-modify_self, find-modify_ne, modify_missing}
use a2a_settlement.Exchange.Models.{Account}
use a2a_settlement.Exchange.Identity.Monitor.{
  at_most, has_lapsed, downgrade, modify_accounts, check_expired_attestations, is_due,
  still_resolves, note_check, recheck_each, tick,
}
use Prim.Native.String.{String}
use mathlib.Core.Option.{some-injective}

module _ {R : Type 0} where
  -- A row after a list of updates is the row before, if its key is not listed, or was updated.
  find-modify_accounts :
      (f : Account R → Account R) (ks : List ℕ) (k : ℕ) (t : Table (Account R)) (a' : Account R)
      → find k (modify_accounts ks f t) ≡ some a'
      → ((contains k ks ≡ false) × (find k t ≡ some a')) ⊎ ((b : Account R) × (a' ≡ f b))
  unfolding modify_accounts
  find-modify_accounts f [] k t a' at = inl (refl, at)
  find-modify_accounts f (j ∷ ks) k t a' at =
      elim (find-modify_accounts f ks k (modify j f t) a' at) [
        | inr written ↦ inr written
        | inl (unlisted, below) ↦ elim (Bool-cases (k == j)) [
          | inr other ↦
              inl (rw other unlisted, sym (find-modify_ne k j f t (==→ne k j other)) ∙ below)
          | inl same ↦ elim (Option-cases (find j t)) [
            | inl missing ↦
                let clash : none ≡ some a' =
                  sym missing
                  ∙ ap (λ i. find i t) (sym (==→eq k j same))
                  ∙ ap (find k) (sym (modify_missing j f t missing))
                  ∙ below in
                let impossible : ⊥ = cc in absurd impossible
            | inr (b, there) ↦ inr (
              b,
              some-injective _ _ (
                  sym below
                  ∙ ap (λ i. find i (modify j f t)) (==→eq k j same)
                  ∙ find-modify_self j f t b there),
            )
          ]
        ]
      ]

  -- A query by condition lists the key of every row that it holds of.
  contains-select :
      (p : Account R → Bool) (k : ℕ) (t : Table (Account R)) (a : Account R)
      → find k t ≡ some a
      → p a ≡ true
      → contains k (select p t) ≡ true
  unfolding select find
  contains-select p k [] a at h = let impossible : ⊥ = cc in absurd impossible
  contains-select p k ((j, b) ∷ t) a at h = elim (Bool-cases (j == k)) [
    | inl here ↦
        let same : b ≡ a = some-injective _ _ (rw here at at) in
        let chosen : p b ≡ true = ap p same ∙ h in
        let self : (k == j) ≡ true = ap (λ i. k == i) (==→eq j k here) ∙ ==_refl k in
        rw (chosen, self) refl
    | inr there ↦
        let deeper = contains-select p k t a (rw there at at) h in
        elim (Bool-cases (p b)) [
          | inl chosen ↦ rw (chosen, deeper) (or_true (k == j))
          | inr passed ↦ rw passed deeper
        ]
  ]

  check_expired-lapsed :
      (now k : ℕ) (t : Table (Account R)) (a' : Account R)
      → find k (check_expired_attestations now t).0 ≡ some a'
      → has_lapsed now a' ≡ false
  unfolding check_expired_attestations
  check_expired-lapsed now k t a' at =
      elim (find-modify_accounts downgrade (select (has_lapsed now) t) k t a' at) [
        | inr (b, written) ↦ rw written refl
        | inl (unlisted, below) ↦ elim (Bool-cases (has_lapsed now a')) [
          | inr fine ↦ fine
          | inl lapsed ↦
              let listed = contains-select (has_lapsed now) k t a' below lapsed in
              let impossible : ⊥ = cc in absurd impossible
        ]
      ]

  -- The same level and expiry in a row of the table before.
  abbrev KeptIn : ℕ → Table (Account R) → Account R → Type 0
  KeptIn k t a' =
      (a : Account R) × (find k t ≡ some a)
      × (a'.kya_level_verified ≡ a.kya_level_verified)
      × (a'.attestation_expires_at ≡ a.attestation_expires_at)

  note_check-KeptIn :
      (now j k : ℕ) (t : Table (Account R)) (b : Account R)
      → find k (modify j (note_check now) t) ≡ some b
      → KeptIn k t b
  note_check-KeptIn now j k t b at = elim (Bool-cases (k == j)) [
    | inr other ↦
        (b, sym (find-modify_ne k j (note_check now) t (==→ne k j other)) ∙ at, refl, refl)
    | inl same ↦
        let here = ==→eq k j same in
        elim (Option-cases (find j t)) [
          | inl missing ↦
              (b, ap (find k) (sym (modify_missing j (note_check now) t missing)) ∙ at, refl, refl)
          | inr (a, there) ↦
              let written : b ≡ note_check now a = some-injective _ _ (
                sym at
                ∙ ap (λ i. find i (modify j (note_check now) t)) here
                ∙ find-modify_self j (note_check now) t a there) in
              (
                a,
                ap (λ i. find i t) here ∙ there,
                ap (λ x. x.kya_level_verified) written,
                ap (λ x. x.attestation_expires_at) written,
              )
        ]
  ]

  -- The recheck changes neither level nor expiry.
  recheck_each-KeptIn :
      (resolves : String → Bool) (now : ℕ) (ks : List ℕ) (k : ℕ) (t : Table (Account R))
      (a' : Account R)
      → find k (recheck_each resolves now ks t).0 ≡ some a'
      → KeptIn k t a'
  unfolding recheck_each
  recheck_each-KeptIn resolves now [] k t a' at = (a', at, refl, refl)
  recheck_each-KeptIn resolves now (j ∷ ks) k t a' at =
      elim (Bool-cases (still_resolves resolves (find j t))) [
        | inr failed ↦ recheck_each-KeptIn resolves now ks k t a' (rw (failed, recheck_each) at at)
        | inl fine ↦
            let (b, found, level, expiry) =
              recheck_each-KeptIn resolves now ks k (modify j (note_check now) t) a'
                (rw (fine, recheck_each) at at) in
            let (a, there, level', expiry') = note_check-KeptIn now j k t b found in
            (a, there, level ∙ level', expiry ∙ expiry')
      ]

  -- After a tick no account has a level above 1 past the expiry that is stored with it.
  pub tick_lapses :
      (resolves : String → Bool) (now recheck_hours k : ℕ) (t : Table (Account R)) (a' : Account R)
      → find k (tick resolves now recheck_hours t) ≡ some a'
      → has_lapsed now a' ≡ false
  unfolding tick
  tick_lapses resolves now recheck_hours k t a' at =
      let checked = (check_expired_attestations now t).0 in
      let (a, there, level, expiry) =
        recheck_each-KeptIn resolves now (select (is_due now recheck_hours) t) k checked a' at in
      let fine = check_expired-lapsed now k t a there in
      ap (λ (e : Option ℕ). at_most e now && leb 2 a'.kya_level_verified) expiry
      ∙ ap (λ (n : ℕ). at_most a.attestation_expires_at now && leb 2 n) level
      ∙ fine

  -- What a row was before a tick: its own expiry and level, or those of a row that was downgraded.
  pub tick-before :
      (resolves : String → Bool) (now recheck_hours k : ℕ) (t : Table (Account R)) (a' : Account R)
      → find k (tick resolves now recheck_hours t) ≡ some a'
      → (KeptIn k t a') ⊎ (a'.kya_level_verified ≡ 1)
  unfolding tick check_expired_attestations
  tick-before resolves now recheck_hours k t a' at =
      let lapsed = select (has_lapsed now) t in
      let checked = modify_accounts lapsed downgrade t in
      let (a, there, level, expiry) =
        recheck_each-KeptIn resolves now (select (is_due now recheck_hours) t) k checked a' at in
      elim (find-modify_accounts downgrade lapsed k t a there) [
        | inl (unlisted, below) ↦ inl (a, below, level, expiry)
        | inr (b, written) ↦ inr (level ∙ ap (λ x. x.kya_level_verified) written)
      ]
