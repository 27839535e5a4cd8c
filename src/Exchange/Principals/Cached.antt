-- ===== src/Exchange/Principals/Cached.antt =====
-- About `is_same_principal`, `link_agent_to_principal` and `classify_transaction` of
-- exchange/principal_resolver.py with the cache.
use a2a_settlement.Base.{
  ℕ, ◌+◌, ◌≡◌, refl, sym, ap, ◌∙◌, Bool, true, false, not, some, List, [], ◌∷◌, ltb, ◌==◌, ◌||◌,
  ==→eq, Bool-cases, Option-cases, inl, inr, arith,
}
use mathlib.Core.Option.{some-injective}
use a2a_settlement.Exchange.Config.{Floats}
use a2a_settlement.Exchange.Models.{SelfDealingClass}
use a2a_settlement.Exchange.Principals.{
  PrincipalLink, LinkSource, Verdict, Match, CacheEntry, Resolver, lesser, greater, is_entry,
  lookup, cache_get, cache_set, invalidate_cache, confidence_of, put_link, link_agent_to_principal,
  shared, decide, is_same_principal, class_of, classify_transaction,
}
use a2a_settlement.Exchange.Principals.Verdicts.{
  FloatOrder, Shares, Shares-swap, reaches, reaches_exactly, decide-verdict,
}
use a2a_settlement.Exchange.Principals.Links.{
  Every, keep_if-Every, keep_if-Every_weak, confidence_of-put_link, confidence_of-put_link_self,
}

same_truth : (p q : Bool) → (p ≡ true → q ≡ true) → (q ≡ true → p ≡ true) → p ≡ q
same_truth true q f g = sym (f refl)
same_truth false true f g = g refl
same_truth false false f g = refl

module _ {R : Type 0} (F : Floats R) (O : FloatOrder F) (round4 : R → R) where
  abbrev pub verdict : ℕ → ℕ → List (PrincipalLink R) → Verdict
  verdict a b links = (decide F round4 a b links).verdict

  -- Every cached verdict is that of the stored links.
  abbrev pub IsCoherent : Resolver R → Type 0
  IsCoherent st = Every (λ e. e.result.verdict ≡ verdict e.agent_a e.agent_b st.links) st.cache

  verdict-Shares :
      (a b a' b' : ℕ) (links links' : List (PrincipalLink R))
      → ((t : R) → Shares F t a b links → Shares F t a' b' links')
      → ((t : R) → Shares F t a' b' links' → Shares F t a b links)
      → verdict a b links ≡ verdict a' b' links'
  verdict-Shares a b a' b' links links' f g =
      decide-verdict F O round4 a b links
      ∙ rw (same (F.literal 8 1), same (F.literal 5 1)) refl
      ∙ sym (decide-verdict F O round4 a' b' links')
    where
      same :
          (t : R)
          → reaches F t (shared F a b links links) ≡ reaches F t (shared F a' b' links' links')
      same t =
          let (to, from) = reaches_exactly F O t a b links in
          let (to', from') = reaches_exactly F O t a' b' links' in
          same_truth _ _ (λ h. from' (f t (to h))) (λ h. from (g t (to' h)))

  verdict_sorted :
      (a b : ℕ) (links : List (PrincipalLink R))
      → verdict (lesser a b) (greater a b) links ≡ verdict a b links
  verdict_sorted a b links = elim (Bool-cases (ltb a b)) [
    | inl less ↦ rw less refl
    | inr more ↦ rw more (
        verdict-Shares b a a b links links (λ t. Shares-swap F t b a links)
          (λ t. Shares-swap F t a b links))
  ]

  hard_verdict :
      (a b : ℕ) (links : List (PrincipalLink R))
      → Shares F (F.literal 8 1) a b links
      → verdict a b links ≡ Verdict.hard_match
  hard_verdict a b links h =
      let (_, from) = reaches_exactly F O (F.literal 8 1) a b links in
      decide-verdict F O round4 a b links ∙ rw (from h) refl

  lookup-IsCoherent :
      (a b bucket : ℕ) (links : List (PrincipalLink R)) (es : List (CacheEntry R)) (m : Match R)
      → Every (λ e. e.result.verdict ≡ verdict e.agent_a e.agent_b links) es
      → lookup a b bucket es ≡ some m
      → m.verdict ≡ verdict a b links
  unfolding lookup
  lookup-IsCoherent a b bucket links [] m h hit = cc
  lookup-IsCoherent a b bucket links (e ∷ es) m h hit = elim (Bool-cases (is_entry a b bucket e)) [
    | inl found ↦
        let is_m : some e.result ≡ some m = rw found at hit in
        let same_a : e.agent_a ≡ a = ==→eq e.agent_a a (ground (arith, found)) in
        let same_b : e.agent_b ≡ b = ==→eq e.agent_b b (ground (arith, found)) in
        ap (λ x. x.verdict) (sym (some-injective e.result m is_m))
        ∙ h.0
        ∙ ap (λ i. verdict i e.agent_b links) same_a
        ∙ ap (λ i. verdict a i links) same_b
    | inr further ↦ lookup-IsCoherent a b bucket links es m h.1 (rw further at hit)
  ]

  -- With a cache whose verdicts are those of the stored links, and floats in order,
  -- is_same_principal answers with the verdict of the links whether or not it finds one in the
  -- cache, in either order of the two agents; it leaves the links alone and the cache as
  -- faithful.
  pub is_same_principal_refines :
      (a b bucket : ℕ) (st : Resolver R)
      → IsCoherent st
      → ((is_same_principal F round4 a b bucket st).1.verdict ≡ verdict a b st.links)
        × ((is_same_principal F round4 a b bucket st).0.links ≡ st.links)
        × IsCoherent (is_same_principal F round4 a b bucket st).0
  unfolding is_same_principal cache_get cache_set
  is_same_principal_refines a b bucket st ok = elim (Option-cases (cache_get a b bucket st.cache)) [
    | inr (m, at) ↦
        rw (is_same_principal, at)
          ((
            lookup-IsCoherent (lesser a b) (greater a b) bucket st.links st.cache m ok at
                ∙ verdict_sorted a b st.links,
            refl,
            ok,
          ))
    | inl miss ↦
        rw (is_same_principal, miss)
          ((
            refl,
            refl,
            keep_if-Every (λ e. e.result.verdict ≡ verdict e.agent_a e.agent_b st.links)
                (λ e. not (ltb (e.bucket + 1) bucket))
                (record {
                  agent_a = lesser a b;
                  agent_b = greater a b;
                  bucket = bucket;
                  result = decide F round4 a b st.links;
                }
                  ∷ st.cache)
                (sym (verdict_sorted a b st.links), ok),
          ))
  ]

  verdict-put_link :
      (a b agent q : ℕ) (source : LinkSource) (c : R) (links : List (PrincipalLink R))
      → (agent == a) ≡ false
      → (agent == b) ≡ false
      → verdict a b links ≡ verdict a b (put_link F agent q source c links)
  verdict-put_link a b agent q source c links ne_a ne_b =
      verdict-Shares a b a b links (put_link F agent q source c links)
        (λ t h.
          let (p, x, y, at_x, at_y, gx, gy) = h in
          (p, x, y, same_a p ∙ at_x, same_b p ∙ at_y, gx, gy))
        (λ t h.
          let (p, x, y, at_x, at_y, gx, gy) = h in
          (p, x, y, sym (same_a p) ∙ at_x, sym (same_b p) ∙ at_y, gx, gy))
    where
      same_a :
          (p : ℕ) → confidence_of a p (put_link F agent q source c links) ≡ confidence_of a p links
      same_a p = confidence_of-put_link F a agent p q source c links ne_a

      same_b :
          (p : ℕ) → confidence_of b p (put_link F agent q source c links) ≡ confidence_of b p links
      same_b p = confidence_of-put_link F b agent p q source c links ne_b

  -- Writing a link keeps the cache faithful: with floats in order, if every cached verdict was
  -- that of the stored links, it is that of the new ones, since the agent's entries are dropped.
  pub link_agent_to_principal-IsCoherent :
      (agent principal : ℕ) (source : LinkSource) (c : R) (st : Resolver R)
      → IsCoherent st
      → IsCoherent (link_agent_to_principal F agent principal source c st)
  unfolding link_agent_to_principal invalidate_cache
  link_agent_to_principal-IsCoherent agent principal source c st ok =
      let links' = put_link F agent principal source c st.links in
      keep_if-Every_weak (λ e. e.result.verdict ≡ verdict e.agent_a e.agent_b st.links)
        (λ e. e.result.verdict ≡ verdict e.agent_a e.agent_b links')
        (λ e. not (e.agent_a == agent || e.agent_b == agent)) st.cache
        (λ e kept h.
          h
          ∙ verdict-put_link e.agent_a e.agent_b agent principal source c st.links
              (ground (arith, kept)) (ground (arith, kept)))
        ok

  -- After two different agents are linked to one principal with confidence 0.8 at least, a
  -- transaction between them is classified as self-dealing, whatever the links before and
  -- whatever a faithful cache holds.
  pub linked_is_self_dealing :
      (a b bucket principal : ℕ) (source source' : LinkSource) (c c' : R) (st : Resolver R)
      → IsCoherent st
      → (b == a) ≡ false
      → F.lt c (F.literal 8 1) ≡ false
      → F.lt c' (F.literal 8 1) ≡ false
      → (classify_transaction F round4 a b bucket (
          link_agent_to_principal F b principal source' c'
            (link_agent_to_principal F a principal source c st))).1
        ≡ SelfDealingClass.self_dealing
  unfolding classify_transaction link_agent_to_principal
  linked_is_self_dealing a b bucket principal source source' c c' st ok ne strong strong' =
      let one = link_agent_to_principal F a principal source c st in
      let two = link_agent_to_principal F b principal source' c' one in
      let coherent : IsCoherent two =
        link_agent_to_principal-IsCoherent b principal source' c' one
          (link_agent_to_principal-IsCoherent a principal source c st ok) in
      let (x, at_x, gx) =
        confidence_of-put_link_self F O (F.literal 8 1) a principal source c st.links strong in
      let (y, at_y, gy) =
        confidence_of-put_link_self F O (F.literal 8 1) b principal source' c' one.links strong' in
      let shares : Shares F (F.literal 8 1) a b two.links = (
        principal,
        x,
        y,
        confidence_of-put_link F a b principal principal source' c' one.links ne ∙ at_x,
        at_y,
        gx,
        gy,
      ) in
      let (found, _, _) = is_same_principal_refines a b bucket two coherent in
      ap class_of (found ∙ hard_verdict a b two.links shares)
