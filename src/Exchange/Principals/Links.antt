-- ===== src/Exchange/Principals/Links.antt =====
-- About the cache's entries and the stored links of exchange/principal_resolver.py.
use a2a_settlement.Base.{
  ℕ, ◌≡◌, refl, ap, ◌∙◌, Bool, true, false, some, List, [], ◌∷◌, ◌==◌, Bool-cases, inl, inr, arith,
}
use a2a_settlement.Exchange.Config.{Floats}
use a2a_settlement.Exchange.Principals.{
  PrincipalLink, LinkSource, CacheEntry, keep_if, is_link, confidence_of, raise_link, put_link,
}
use a2a_settlement.Exchange.Principals.Verdicts.{FloatOrder}

abbrev pub Every : {A : Type 0} → (A → Type 0) → List A → Type 0
Every P [] = Unit
Every P (x ∷ xs) = P x × Every P xs

module _ {R : Type 0} where
  pub keep_if-Every :
      (P : CacheEntry R → Type 0) (p : CacheEntry R → Bool) (es : List (CacheEntry R))
      → Every P es
      → Every P (keep_if p es)
  unfolding keep_if
  keep_if-Every P p [] h = tt
  keep_if-Every P p (e ∷ es) h = elim (Bool-cases (p e)) [
    | inl kept ↦ rw kept ((h.0, keep_if-Every P p es h.1))
    | inr dropped ↦ rw dropped (keep_if-Every P p es h.1)
  ]

  -- The entries that are kept satisfy the condition too.
  pub keep_if-Every_weak :
      (P Q : CacheEntry R → Type 0) (p : CacheEntry R → Bool) (es : List (CacheEntry R))
      → ((e : CacheEntry R) → p e ≡ true → P e → Q e)
      → Every P es
      → Every Q (keep_if p es)
  unfolding keep_if
  keep_if-Every_weak P Q p [] f h = tt
  keep_if-Every_weak P Q p (e ∷ es) f h = elim (Bool-cases (p e)) [
    | inl kept ↦ rw kept ((f e kept h.0, keep_if-Every_weak P Q p es f h.1))
    | inr dropped ↦ rw dropped (keep_if-Every_weak P Q p es f h.1)
  ]

module _ {R : Type 0} (F : Floats R) where
  -- A link of one agent changes nothing for another.
  pub confidence_of-put_link :
      (a agent p q : ℕ) (source : LinkSource) (c : R) (ls : List (PrincipalLink R))
      → (agent == a) ≡ false
      → confidence_of a p (put_link F agent q source c ls) ≡ confidence_of a p ls
  unfolding confidence_of put_link
  confidence_of-put_link a agent p q source c [] ne = rw ne refl
  confidence_of-put_link a agent p q source c (l ∷ ls) ne = elim (Bool-cases (is_link agent q l)) [
    | inl found ↦
        let raised : (raise_link F source c l).agent_id ≡ l.agent_id = ground arith in
        let other : (l.agent_id == a) ≡ false = ground (arith, found, ne) in
        let other' : ((raise_link F source c l).agent_id == a) ≡ false =
          ap (λ i. i == a) raised ∙ other in
        rw (found, confidence_of, other, other') refl
    | inr further ↦
        rw (further, confidence_of, confidence_of-put_link a agent p q source c ls ne) refl
  ]

  module _ (O : FloatOrder F) where
    -- After a link is written its confidence is what was asked for, at least.
    pub confidence_of-put_link_self :
        (t : R) (agent q : ℕ) (source : LinkSource) (c : R) (ls : List (PrincipalLink R))
        → F.lt c t ≡ false
        → (z : R) × (confidence_of agent q (put_link F agent q source c ls) ≡ some z)
          × (F.lt z t ≡ false)
    unfolding confidence_of put_link
    confidence_of-put_link_self t agent q source c [] h = (c, ground arith, h)
    confidence_of-put_link_self t agent q source c (l ∷ ls) h =
        elim (Bool-cases (is_link agent q l)) [
          | inl found ↦ elim (Bool-cases (F.lt l.confidence c)) [
            | inl weaker ↦ (c, rw (found, weaker, confidence_of, found) refl, h)
            | inr enough ↦ (
              l.confidence,
              rw (found, enough, confidence_of, found) refl,
              O.below l.confidence c t enough h,
            )
          ]
          | inr further ↦
              let (z, at_z, gz) = confidence_of-put_link_self t agent q source c ls h in
              (z, rw (further, confidence_of, further) at_z, gz)
        ]
