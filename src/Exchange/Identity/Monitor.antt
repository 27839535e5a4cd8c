-- ===== src/Exchange/Identity/Monitor.antt =====
-- `KYAMonitor` of exchange/identity/monitor.py. `resolves` tells whether a DID still resolves.
pub mod Lapses
use a2a_settlement.Base.{
  ℕ, ◌+◌, ◌*◌, Bool, true, false, Option, none, some, List, [], ◌∷◌, ltb, leb, ◌&&◌, if◌then◌else◌,
  is_some,
}
use a2a_settlement.Table.{Table, modify, select, find}
use a2a_settlement.Exchange.Models.{Account}
use a2a_settlement.Exchange.Config.{hours}
use Prim.Native.String.{String}

-- Comparisons with a column that may be NULL are false where it is.
abbrev pub at_most : Option ℕ → ℕ → Bool
at_most none n = false
at_most (some t) n = leb t n

abbrev pub above : Option ℕ → ℕ → Bool
above none n = false
above (some t) n = ltb n t

-- `t <= now - delta`
abbrev pub older_than : ℕ → ℕ → Option ℕ → Bool
older_than now delta none = false
older_than now delta (some t) = leb (t + delta) now

module _ {R : Type 0} where
  abbrev pub is_expiring : ℕ → ℕ → Account R → Bool
  is_expiring now days a =
      at_most a.attestation_expires_at (now + hours (24 * days))
      && (above a.attestation_expires_at now && leb 2 a.kya_level_verified)

  -- The accounts that a warning names.
  unfoldable pub check_expiring_attestations : ℕ → ℕ → Table (Account R) → List ℕ
  check_expiring_attestations now days accounts = select (is_expiring now days) accounts

  abbrev pub has_lapsed : ℕ → Account R → Bool
  has_lapsed now a = at_most a.attestation_expires_at now && leb 2 a.kya_level_verified

  abbrev pub downgrade : Account R → Account R
  downgrade a = record a { kya_level_verified = 1; attestation_expires_at = none }

  unfoldable pub modify_accounts :
      List ℕ → (Account R → Account R) → Table (Account R) → Table (Account R)
  modify_accounts [] f t = t
  modify_accounts (k ∷ ks) f t = modify_accounts ks f (modify k f t)

  unfoldable pub check_expired_attestations : ℕ → Table (Account R) → Table (Account R) × List ℕ
  unfolding modify_accounts
  check_expired_attestations now accounts =
      let lapsed = select (has_lapsed now) accounts in
      (modify_accounts lapsed downgrade accounts, lapsed)

  abbrev pub is_due : ℕ → ℕ → Account R → Bool
  is_due now recheck_hours a =
      leb 1 a.kya_level_verified
      && (is_some a.did && older_than now (hours recheck_hours) a.card_verified_at)

  abbrev pub still_resolves : (String → Bool) → Option (Account R) → Bool
  still_resolves resolves none = false
  still_resolves resolves (some a) = elim a.did [ none ↦ false | some did ↦ resolves did ]

  abbrev pub note_check : ℕ → Account R → Account R
  note_check now a = record a { card_verified_at = some now }

  -- The loop over the accounts that are due: one that resolves is marked as verified now.
  unfoldable pub recheck_each :
      (String → Bool) → ℕ → List ℕ → Table (Account R) → Table (Account R) × List ℕ
  recheck_each resolves now [] t = (t, [])
  recheck_each resolves now (k ∷ ks) t = elim (still_resolves resolves (find k t)) [
    | true ↦ recheck_each resolves now ks (modify k (note_check now) t)
    | false ↦ let (t', failed) = recheck_each resolves now ks t in (t', k ∷ failed)
  ]

  unfoldable pub recheck_agent_identities :
      (String → Bool) → ℕ → ℕ → Table (Account R) → Table (Account R) × List ℕ
  unfolding recheck_each
  recheck_agent_identities resolves now recheck_hours accounts =
      recheck_each resolves now (select (is_due now recheck_hours) accounts) accounts

  -- `_tick`: the first step only warns. The later query reads the rows as they were, on which it
  -- selects the same accounts, since a downgrade leaves level 1.
  unfoldable pub tick : (String → Bool) → ℕ → ℕ → Table (Account R) → Table (Account R)
  unfolding check_expired_attestations recheck_each
  tick resolves now recheck_hours accounts =
      let (checked, _) = check_expired_attestations now accounts in
      let (rechecked, _) =
        recheck_each resolves now (select (is_due now recheck_hours) accounts) checked in
      rechecked
