-- ===== src/Exchange/Principals/Verdicts.antt =====
-- About the decision of `is_same_principal` of exchange/principal_resolver.py on the stored links.
use a2a_settlement.Base.{
  ℕ, ◌≡◌, ◌≢◌, ◌↔◌, refl, sym, ap, ◌∙◌, Bool, true, false, not, none, some, List, [], ◌∷◌, ◌==◌,
  ◌||◌, ==→eq, Bool-cases, Option-cases, inl, inr, arith, if◌then◌else◌,
}
use a2a_settlement.Exchange.Config.{Floats}
use a2a_settlement.Exchange.Principals.{
  PrincipalLink, Verdict, is_link, confidence_of, min_float, shared, strongest, match_of, decide,
}

module _ {R : Type 0} (F : Floats R) where
  -- What is used of the order of floats: `<` orders confidences, which are numbers, weakly.
  pub record FloatOrder : Type 0 where
    pub above : (x y t : R) → F.lt x y ≡ true → F.lt x t ≡ false → F.lt y t ≡ false
    pub below : (x y t : R) → F.lt x y ≡ false → F.lt y t ≡ false → F.lt x t ≡ false

  -- A principal to which both accounts are linked with confidence `t` at least.
  abbrev pub Shares : R → ℕ → ℕ → List (PrincipalLink R) → Type 0
  Shares t a b links =
      (p : ℕ) × (x : R) × (y : R) × (confidence_of a p links ≡ some x)
      × (confidence_of b p links ≡ some y)
      × (F.lt x t ≡ false)
      × (F.lt y t ≡ false)

  pub Shares-swap :
      (t : R) (a b : ℕ) (links : List (PrincipalLink R)) → Shares t a b links → Shares t b a links
  Shares-swap t a b links (p, x, y, at_x, at_y, gx, gy) = (p, y, x, at_y, at_x, gy, gx)

  abbrev pub reaches : R → List (ℕ × R) → Bool
  reaches t [] = false
  reaches t (x ∷ xs) = not (F.lt x.1 t) || reaches t xs

  module _ (O : FloatOrder) where
    min_float-reaches :
        (x y t : R) → F.lt (min_float F x y) t ≡ false → (F.lt x t ≡ false) × (F.lt y t ≡ false)
    min_float-reaches x y t h = elim (Bool-cases (F.lt y x)) [
      | inl less ↦
          let hy : F.lt y t ≡ false = ground (arith, h, less) in (O.above y x t less hy, hy)
      | inr more ↦
          let hx : F.lt x t ≡ false = ground (arith, h, more) in (hx, O.below y x t more hx)
    ]

    reaches-min_float :
        (x y t : R) → F.lt x t ≡ false → F.lt y t ≡ false → F.lt (min_float F x y) t ≡ false
    reaches-min_float x y t hx hy = ground (arith, hx, hy)

    strongest-reaches :
        (t : R) (x : ℕ × R) (xs : List (ℕ × R))
        → not (F.lt (strongest F x xs).1 t) ≡ not (F.lt x.1 t) || reaches t xs
    unfolding strongest
    strongest-reaches t x [] = ground arith
    strongest-reaches t x (y ∷ ys) = elim (Bool-cases (F.lt x.1 y.1)) [
      | inl less ↦
          let ih = strongest-reaches t y ys in
          let up = O.above x.1 y.1 t less in
          rw less (elim (Bool-cases (F.lt x.1 t)) [
            | inl under ↦ rw under ih
            | inr over ↦ rw over (ih ∙ rw (up over) refl)
          ])
      | inr more ↦
          let ih = strongest-reaches t x ys in
          let down = O.below x.1 y.1 t more in
          rw more (elim (Bool-cases (F.lt y.1 t)) [
            | inl under ↦ rw under ih
            | inr over ↦ rw over (ih ∙ rw (down over) refl)
          ])
    ]

    -- A shared principal reaches the threshold just where both links do.
    shared-reaches :
        (t : R) (a b : ℕ) (links ls : List (PrincipalLink R))
        → reaches t (shared F a b links ls) ≡ true
        → Shares t a b links
    unfolding shared
    shared-reaches t a b links [] h = cc
    shared-reaches t a b links (l ∷ ls) h =
        elim (Option-cases (confidence_of a l.principal_id links)) [
          | inl none_a ↦ shared-reaches t a b links ls (rest_of none_a)
          | inr (x, at_x) ↦ elim (Option-cases (confidence_of b l.principal_id links)) [
            | inl none_b ↦ shared-reaches t a b links ls (rest_b x at_x none_b)
            | inr (y, at_y) ↦ elim (Bool-cases (l.agent_id == a)) [
              | inr other ↦ shared-reaches t a b links ls (rest_c x y at_x at_y other)
              | inl mine ↦ elim (Bool-cases (F.lt (min_float F x y) t)) [
                | inl under ↦ shared-reaches t a b links ls (rest_d x y at_x at_y mine under)
                | inr over ↦
                    let (gx, gy) = min_float-reaches x y t over in
                    (l.principal_id, x, y, at_x, at_y, gx, gy)
              ]
            ]
          ]
        ]
      where
        rest_of :
            confidence_of a l.principal_id links ≡ none → reaches t (shared F a b links ls) ≡ true
        rest_of e = rw (shared, e) at h

        rest_b :
            (x : R)
            → confidence_of a l.principal_id links ≡ some x
            → confidence_of b l.principal_id links ≡ none
            → reaches t (shared F a b links ls) ≡ true
        rest_b x e f = rw (shared, e, f) at h

        rest_c :
            (x y : R)
            → confidence_of a l.principal_id links ≡ some x
            → confidence_of b l.principal_id links ≡ some y
            → (l.agent_id == a) ≡ false
            → reaches t (shared F a b links ls) ≡ true
        rest_c x y e f g = rw (shared, e, f, g) at h

        rest_d :
            (x y : R)
            → confidence_of a l.principal_id links ≡ some x
            → confidence_of b l.principal_id links ≡ some y
            → (l.agent_id == a) ≡ true
            → F.lt (min_float F x y) t ≡ true
            → reaches t (shared F a b links ls) ≡ true
        rest_d x y e f g u = rw (shared, e, f, g, u) at h

    reaches-rest :
        (t : R) (a b : ℕ) (l : PrincipalLink R) (links ls : List (PrincipalLink R))
        → reaches t (shared F a b links ls) ≡ true
        → reaches t (shared F a b links (l ∷ ls)) ≡ true
    unfolding shared
    reaches-rest t a b l links ls h = elim (Option-cases (confidence_of a l.principal_id links)) [
      | inl none_a ↦ rw (shared, none_a) h
      | inr (x, at_x) ↦ elim (Option-cases (confidence_of b l.principal_id links)) [
        | inl none_b ↦ rw (shared, at_x, none_b) h
        | inr (y, at_y) ↦ elim (Bool-cases (l.agent_id == a)) [
          | inr other ↦ rw (shared, at_x, at_y, other) h
          | inl mine ↦ elim (Bool-cases (F.lt (min_float F x y) t)) [
            | inl under ↦ rw (shared, at_x, at_y, mine, under) h
            | inr over ↦ rw (shared, at_x, at_y, mine, over) refl
          ]
        ]
      ]
    ]

    reaches-head :
        (t : R) (a b : ℕ) (l : PrincipalLink R) (links ls : List (PrincipalLink R)) (x y : R)
        → (l.agent_id == a) ≡ true
        → confidence_of a l.principal_id links ≡ some x
        → confidence_of b l.principal_id links ≡ some y
        → F.lt x t ≡ false
        → F.lt y t ≡ false
        → reaches t (shared F a b links (l ∷ ls)) ≡ true
    unfolding shared
    reaches-head t a b l links ls x y mine at_x at_y gx gy =
        rw (shared, at_x, at_y, mine, reaches-min_float x y t gx gy) refl

    reaches-shared :
        (t : R) (a b p : ℕ) (links ls : List (PrincipalLink R)) (w x y : R)
        → confidence_of a p ls ≡ some w
        → confidence_of a p links ≡ some x
        → confidence_of b p links ≡ some y
        → F.lt x t ≡ false
        → F.lt y t ≡ false
        → reaches t (shared F a b links ls) ≡ true
    unfolding confidence_of
    reaches-shared t a b p links [] w x y here at_x at_y gx gy = cc
    reaches-shared t a b p links (l ∷ ls) w x y here at_x at_y gx gy =
        elim (Bool-cases (is_link a p l)) [
          | inl found ↦
              let same : l.principal_id ≡ p = ==→eq l.principal_id p (ground (arith, found)) in
              reaches-head t a b l links ls x y (ground (arith, found))
                (ap (λ q. confidence_of a q links) same ∙ at_x)
                (ap (λ q. confidence_of b q links) same ∙ at_y) gx gy
          | inr other ↦
              let further : confidence_of a p ls ≡ some w = rw other at here in
              reaches-rest t a b l links ls
                (reaches-shared t a b p links ls w x y further at_x at_y gx gy)
        ]

    pub reaches_exactly :
        (t : R) (a b : ℕ) (links : List (PrincipalLink R))
        → (reaches t (shared F a b links links) ≡ true) ↔ Shares t a b links
    reaches_exactly t a b links = (
      shared-reaches t a b links links,
      λ h.
          let (p, x, y, at_x, at_y, gx, gy) = h in
          reaches-shared t a b p links links x x y at_x at_x at_y gx gy,
    )

    match-verdict :
        (round4 : R → R) (xs : List (ℕ × R))
        → (match_of F round4 xs).verdict ≡ (
            if reaches (F.literal 8 1) xs
            then Verdict.hard_match
            else if reaches (F.literal 5 1) xs
            then Verdict.soft_match
            else Verdict.no_match)
    match-verdict round4 [] = refl
    match-verdict round4 (x ∷ xs) =
        let hard = strongest-reaches (F.literal 8 1) x xs in
        let soft = strongest-reaches (F.literal 5 1) x xs in
        rw (sym hard, sym soft)
          (by_not (F.lt (strongest F x xs).1 (F.literal 8 1))
            (F.lt (strongest F x xs).1 (F.literal 5 1)))
      where
        by_not :
            (p q : Bool)
            → (if p
                then (if q then Verdict.no_match else Verdict.soft_match)
                else Verdict.hard_match)
              ≡ (if not p
                  then Verdict.hard_match
                  else if not q
                  then Verdict.soft_match
                  else Verdict.no_match)
        by_not true true = refl
        by_not true false = refl
        by_not false q = refl

    pub decide-verdict :
        (round4 : R → R) (a b : ℕ) (links : List (PrincipalLink R))
        → (decide F round4 a b links).verdict ≡ (
            if reaches (F.literal 8 1) (shared F a b links links)
            then Verdict.hard_match
            else if reaches (F.literal 5 1) (shared F a b links links)
            then Verdict.soft_match
            else Verdict.no_match)
    unfolding decide
    decide-verdict round4 a b links = match-verdict round4 (shared F a b links links)

    -- With floats in order and 0.5 below 0.8, the decision on two agents is a hard match exactly
    -- if some principal is linked to both with confidence 0.8 at least, and a match of some kind
    -- exactly if one is with 0.5 at least.
    pub decide_exactly :
        (round4 : R → R) (a b : ℕ) (links : List (PrincipalLink R))
        → F.lt (F.literal 8 1) (F.literal 5 1) ≡ false
        → ((decide F round4 a b links).verdict ≡ Verdict.hard_match
            ↔ Shares (F.literal 8 1) a b links)
          × ((decide F round4 a b links).verdict ≢ Verdict.no_match
              ↔ Shares (F.literal 5 1) a b links)
    decide_exactly round4 a b links order =
        let v = decide-verdict round4 a b links in
        let (hard, hard') = reaches_exactly (F.literal 8 1) a b links in
        let (soft, soft') = reaches_exactly (F.literal 5 1) a b links in
        let weaker : Shares (F.literal 8 1) a b links → Shares (F.literal 5 1) a b links = λ h.
          let (p, x, y, at_x, at_y, gx, gy) = h in
          (p, x, y, at_x, at_y, O.below x _ _ gx order, O.below y _ _ gy order) in
        elim (Bool-cases (reaches (F.literal 8 1) (shared F a b links links))) [
          | inl is_hard ↦
              let v' : (decide F round4 a b links).verdict ≡ Verdict.hard_match =
                v ∙ rw is_hard refl in
              ((λ _. hard is_hard, λ _. v'), (λ _. weaker (hard is_hard), λ _ e. cc))
          | inr not_hard ↦ elim (Bool-cases (reaches (F.literal 5 1) (shared F a b links links))) [
            | inl is_soft ↦
                let v' : (decide F round4 a b links).verdict ≡ Verdict.soft_match =
                  v ∙ rw (not_hard, is_soft) refl in
                ((λ e. cc, λ h. let e = hard' h in cc), (λ _. soft is_soft, λ _ e. cc))
            | inr not_soft ↦
                let v' : (decide F round4 a b links).verdict ≡ Verdict.no_match =
                  v ∙ rw (not_hard, not_soft) refl in
                (
                  (λ e. cc, λ h. let e = hard' h in cc),
                  (λ ne. absurd (ne v'), λ h. let e = soft' h in cc),
                )
          ]
        ]
