-- ===== src/Exchange/Reputation.antt =====
-- Reputation updates of exchange/routes/settlement.py: `_guarded_ema_update`, its callers' clamps,
-- and `_apply_provenance_reputation_penalty`.
use a2a_settlement.Base.{Bool, true, false, Option, none, some, if◌then◌else◌}
use a2a_settlement.Exchange.Models.{
  Account, SelfDealingClass, arms_length, suspected_self_dealing, self_dealing, AttestationLevel,
  self_declared, signed, verifiable, Recommendation, approve, reject, ProvenanceResult,
}
use a2a_settlement.Exchange.Config.{Floats}

-- `d.get(key, default)`
abbrev pub get_or {ℓ} : {A : Type ℓ} → Option A → A → A
get_or none d = d
get_or (some a) d = a

is_approve : Recommendation → Bool
is_approve approve = true
is_approve _ = false

is_reject : Recommendation → Bool
is_reject reject = true
is_reject _ = false

module _ {R : Type 0} (F : Floats R) where
  abbrev pub one : R
  one = F.literal 10 1

  abbrev pub nought : R
  nought = F.literal 0 1

  -- Python's `min(1.0, x)` and `max(0.0, x)`
  unfoldable pub at_most_one : R → R
  at_most_one x = if F.lt x one then x else one

  unfoldable pub at_least_zero : R → R
  at_least_zero x = if F.lt nought x then x else nought

  abbrev ema : R → R → R → R
  ema current outcome lam = F.add (F.mul current (F.sub one lam)) (F.mul outcome lam)

  unfoldable pub guarded_ema_update : R → R → Option SelfDealingClass → R → R
  guarded_ema_update current outcome (some self_dealing) lam = current
  guarded_ema_update current outcome (some suspected_self_dealing) lam =
      ema current outcome (F.mul lam (F.literal 25 2))
  guarded_ema_update current outcome (some arms_length) lam = ema current outcome (F.mul lam one)
  guarded_ema_update current outcome none lam = ema current outcome (F.mul lam one)

  -- The default of the parameter `lam`.
  abbrev pub default_lam : R
  default_lam = F.literal 1 1

  -- provider.reputation = min(1.0, _guarded_ema_update(reputation, 1.0, class, lam))
  unfoldable pub reward : Option SelfDealingClass → R → Account R → Account R
  unfolding at_most_one guarded_ema_update
  reward sdc lam a = record a {
    reputation = at_most_one (guarded_ema_update a.reputation one sdc lam);
  }

  -- provider.reputation = max(0.0, _guarded_ema_update(reputation, 0.0, class))
  unfoldable pub punish : Option SelfDealingClass → Account R → Account R
  unfolding at_least_zero guarded_ema_update
  punish sdc a = record a {
    reputation = at_least_zero (guarded_ema_update a.reputation nought sdc default_lam);
  }

  abbrev penalty_factor : AttestationLevel → R
  penalty_factor self_declared = F.literal 9 1
  penalty_factor signed = F.literal 85 2
  penalty_factor verifiable = F.literal 7 1

  abbrev tier_bonus : AttestationLevel → R → R
  tier_bonus self_declared r = r
  tier_bonus signed r = at_most_one (F.add r (F.literal 2 2))
  tier_bonus verifiable r = at_most_one (F.add r (F.literal 2 2))

  -- An empty result is falsy too; the callers pass a result or none.
  unfoldable pub apply_provenance_reputation_penalty :
      Option ProvenanceResult → Account R → Account R
  unfolding at_most_one at_least_zero is_approve is_reject
  apply_provenance_reputation_penalty none a = a
  apply_provenance_reputation_penalty (some p) a =
      let verified = get_or p.verified true in
      let tier = get_or p.tier self_declared in
      let recommendation = get_or p.recommendation approve in
      if verified
      then (if is_approve recommendation
          then record a { reputation = tier_bonus tier a.reputation }
          else if is_reject recommendation
          then record a { reputation = at_least_zero (F.mul a.reputation (penalty_factor tier)) }
          else a)
      else record a { reputation = at_least_zero (F.mul a.reputation (penalty_factor tier)) }
