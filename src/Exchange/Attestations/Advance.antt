-- ===== src/Exchange/Attestations/Advance.antt =====
-- About how the status of an attestation may change.
use a2a_settlement.Base.{
  ℕ, ◌≤◌, ◌≡◌, refl, sym, ap, ◌∙◌, Bool, true, some, List, [], ◌∷◌, arith, ◌==◌, Bool-cases, ==→eq,
  ==→ne, inl, inr,
}
use a2a_settlement.Table.{Table, find, modify, append}
use a2a_settlement.Table.Laws.{find-modify_self, find-modify_ne}
use a2a_settlement.Table.Keys.{
  satisfies, UniqueKeys, Pending, Pending-frame, UniqueKeys-modify, find-append-some,
}
use a2a_settlement.Exchange.Attestations.Rows.{
  AttestationStatus, Attestation, is_stale, is_active_att, expire, check_and_expire, modify_each,
}

-- The order in which a row runs through its statuses; some may be left out.
abbrev pub stage : AttestationStatus → ℕ
stage AttestationStatus.active = 0
stage AttestationStatus.expired = 1
stage AttestationStatus.revoked = 2
stage AttestationStatus.renewed = 3

-- A later state of a row: its status is no earlier, and what it attests is the same.
pub record Advances (a b : Attestation) : Type 0 where
  pub later : stage a.status ≤ stage b.status
  pub account : b.account_id ≡ a.account_id
  pub type : b.attestation_type ≡ a.attestation_type
  pub issue : b.issued_at ≡ a.issued_at
  pub expiry : b.expires_at ≡ a.expires_at
  pub parent : b.parent_attestation_id ≡ a.parent_attestation_id
  pub digest : b.payload_hash ≡ a.payload_hash

pub Advances-same :
    (a b : Attestation)
    → stage a.status ≤ stage b.status
    → b ≡ record a {
      status = b.status;
      revoked_at = b.revoked_at;
      revocation_reason = b.revocation_reason;
      warning_sent_at = b.warning_sent_at;
    }
    → Advances a b
Advances-same a b le e = record {
  later = le;
  account = ap (λ x. x.account_id) e;
  type = ap (λ x. x.attestation_type) e;
  issue = ap (λ x. x.issued_at) e;
  expiry = ap (λ x. x.expires_at) e;
  parent = ap (λ x. x.parent_attestation_id) e;
  digest = ap (λ x. x.payload_hash) e;
}

Advances-refl : (a : Attestation) → Advances a a
Advances-refl a = Advances-same a a (omega arith) refl

Advances-trans : (a b c : Attestation) → Advances a b → Advances b c → Advances a c
Advances-trans a b c p q = record {
  later = omega (arith, p.later, q.later);
  account = q.account ∙ p.account;
  type = q.type ∙ p.type;
  issue = q.issue ∙ p.issue;
  expiry = q.expiry ∙ p.expiry;
  parent = q.parent ∙ p.parent;
  digest = q.digest ∙ p.digest;
}

-- No row is lost, and each is in a later state.
abbrev pub Forward : Table Attestation → Table Attestation → Type 0
Forward t t' =
    (k : ℕ) (a : Attestation)
    → find k t ≡ some a
    → (b : Attestation) × (find k t' ≡ some b) × Advances a b

pub Forward-refl : (t : Table Attestation) → Forward t t
Forward-refl t k a at = (a, at, Advances-refl a)

pub Forward-trans : (t u v : Table Attestation) → Forward t u → Forward u v → Forward t v
Forward-trans t u v p q k a at =
    let (b, at_b, ab) = p k a at in
    let (c, at_c, bc) = q k b at_b in (c, at_c, Advances-trans a b c ab bc)

pub Forward-modify :
    (j : ℕ) (f : Attestation → Attestation) (t : Table Attestation)
    → ((a : Attestation) → find j t ≡ some a → Advances a (f a))
    → Forward t (modify j f t)
Forward-modify j f t ok k a at = elim (Bool-cases (k == j)) [
  | inl here ↦
      let same = ==→eq k j here in
      let there : find j t ≡ some a = ap (λ i. find i t) (sym same) ∙ at in
      (f a, ap (λ i. find i (modify j f t)) same ∙ find-modify_self j f t a there, ok a there)
  | inr away ↦ (a, find-modify_ne k j f t (==→ne k j away) ∙ at, Advances-refl a)
]

pub Forward-append : (j : ℕ) (v : Attestation) (t : Table Attestation) → Forward t (append j v t)
Forward-append j v t k a at = (a, find-append-some k j v a t at, Advances-refl a)

is_active_stage : (st : AttestationStatus) → is_active_att st ≡ true → stage st ≡ 0
is_active_stage AttestationStatus.active h = refl
is_active_stage AttestationStatus.expired h = cc
is_active_stage AttestationStatus.revoked h = cc
is_active_stage AttestationStatus.renewed h = cc

stale_early : (now : ℕ) (a : Attestation) → is_stale now a ≡ true → stage a.status ≤ 1
stale_early now a stale = omega (arith, is_active_stage a.status (ground (arith, stale)))

pub expire-Advances : (now : ℕ) (a : Attestation) → is_stale now a ≡ true → Advances a (expire a)
expire-Advances now a stale = Advances-same a (expire a) (stale_early now a stale) refl

pub check_and_expire-Advances : (now : ℕ) (a : Attestation) → Advances a (check_and_expire now a)
unfolding check_and_expire
check_and_expire-Advances now a = elim (Bool-cases (is_stale now a)) [
  | inr fresh ↦ rw fresh (Advances-refl a)
  | inl stale ↦ rw stale (expire-Advances now a stale)
]

-- The rows under the keys are all changed for later ones.
pub modify_each-Forward :
    (f : Attestation → Attestation) (ks : List ℕ) (t : Table Attestation)
    → ((a : Attestation) → Advances a (f a))
    → Forward t (modify_each f ks t)
unfolding modify_each
modify_each-Forward f [] t ok = Forward-refl t
modify_each-Forward f (k ∷ ks) t ok =
    Forward-trans t (modify k f t) (modify_each f ks (modify k f t))
      (Forward-modify k f t (λ a at. ok a)) (modify_each-Forward f ks (modify k f t) ok)

pub modify_each-Forward-Pending :
    (p : Attestation → Bool) (f : Attestation → Attestation) (ks : List ℕ) (t : Table Attestation)
    → ((a : Attestation) → p a ≡ true → Advances a (f a))
    → Pending p ks t
    → Forward t (modify_each f ks t)
unfolding modify_each
modify_each-Forward-Pending p f [] t ok q = Forward-refl t
modify_each-Forward-Pending p f (k ∷ ks) t ok q =
    Forward-trans t (modify k f t) (modify_each f ks (modify k f t))
      (Forward-modify k f t (λ a at. ok a (ap (satisfies p) (sym at) ∙ q.0)))
      (modify_each-Forward-Pending p f ks (modify k f t) ok
        (Pending-frame p ks k t (modify k f t) (λ j ne. find-modify_ne j k f t ne) q.1 q.2))

pub UniqueKeys-modify_each :
    (f : Attestation → Attestation) (ks : List ℕ) (t : Table Attestation)
    → UniqueKeys t
    → UniqueKeys (modify_each f ks t)
unfolding modify_each
UniqueKeys-modify_each f [] t h = h
UniqueKeys-modify_each f (k ∷ ks) t h =
    UniqueKeys-modify_each f ks (modify k f t) (UniqueKeys-modify k f t h)
