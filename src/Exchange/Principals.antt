-- ===== src/Exchange/Principals.antt =====
-- exchange/principal_resolver.py: which accounts one principal controls, with the cache of verdicts.
-- A time bucket is a number; both reads of the clock in one call fall into one bucket here.
pub mod Verdicts
pub mod Links
pub mod Cached
use a2a_settlement.Base.{
  ℕ, ◌+◌, Bool, true, false, not, Option, none, some, List, [], ◌∷◌, ◌++◌, ltb, ◌==◌, ◌&&◌, ◌||◌,
  if◌then◌else◌,
}
use a2a_settlement.Table.{Table, find, append}
use a2a_settlement.Exchange.Models.{SelfDealingClass}
use a2a_settlement.Exchange.Config.{Floats}
use Prim.Native.String.{String}
use text.Mathlib.Text.{◌==◌ as str_eq}

pub data LinkSource : Type 0 where
  registration attestation payment_graph behavioral_cluster manual : LinkSource

pub data KyaLevel : Type 0 where
  kya_none kya_basic kya_attested kya_verified : KyaLevel

pub data Verdict : Type 0 where
  hard_match soft_match no_match : Verdict

-- AgentPrincipalLink, whose key is the pair of the two ids.
pub record PrincipalLink (R : Type 0) : Type 0 where
  pub agent_id : ℕ
  pub principal_id : ℕ
  pub link_source : LinkSource
  pub confidence : R

-- The verdict dict; `basis` is the principal, if there is one.
pub record Match (R : Type 0) : Type 0 where
  pub verdict : Verdict
  pub confidence : R
  pub basis : Option ℕ

pub record CacheEntry (R : Type 0) : Type 0 where
  pub agent_a : ℕ
  pub agent_b : ℕ
  pub bucket : ℕ
  pub result : Match R

-- The links, the principals, and the process's cache; `developers` is the `developer_id` column.
pub record Resolver (R : Type 0) : Type 0 where
  pub links : List (PrincipalLink R)
  pub principals : Table KyaLevel
  pub developers : Table String
  pub cache : List (CacheEntry R)

abbrev pub lesser : ℕ → ℕ → ℕ
lesser a b = if ltb a b then a else b

abbrev pub greater : ℕ → ℕ → ℕ
greater a b = if ltb a b then b else a

abbrev pub is_registration : LinkSource → Bool
is_registration LinkSource.registration = true
is_registration _ = false

-- `_kya_int_to_str`
abbrev pub kya_level_of : ℕ → KyaLevel
kya_level_of level =
    if level == 1
    then KyaLevel.kya_basic
    else if level == 2
    then KyaLevel.kya_attested
    else if level == 3
    then KyaLevel.kya_verified
    else KyaLevel.kya_none

abbrev pub class_of : Verdict → SelfDealingClass
class_of Verdict.hard_match = SelfDealingClass.self_dealing
class_of Verdict.soft_match = SelfDealingClass.suspected_self_dealing
class_of Verdict.no_match = SelfDealingClass.arms_length

module _ {R : Type 0} where
  abbrev pub is_entry : ℕ → ℕ → ℕ → CacheEntry R → Bool
  is_entry a b bucket e = e.agent_a == a && (e.agent_b == b && e.bucket == bucket)

  unfoldable pub lookup : ℕ → ℕ → ℕ → List (CacheEntry R) → Option (Match R)
  lookup a b bucket [] = none
  lookup a b bucket (e ∷ es) = if is_entry a b bucket e then some e.result else lookup a b bucket es

  unfoldable pub cache_get : ℕ → ℕ → ℕ → List (CacheEntry R) → Option (Match R)
  unfolding lookup
  cache_get agent_a agent_b bucket es =
      lookup (lesser agent_a agent_b) (greater agent_a agent_b) bucket es

  unfoldable pub keep_if : (CacheEntry R → Bool) → List (CacheEntry R) → List (CacheEntry R)
  keep_if p [] = []
  keep_if p (e ∷ es) = if p e then e ∷ keep_if p es else keep_if p es

  -- A newer entry stands before an older one of the same key; buckets before the last are dropped.
  unfoldable pub cache_set : ℕ → ℕ → ℕ → Match R → List (CacheEntry R) → List (CacheEntry R)
  unfolding keep_if
  cache_set agent_a agent_b bucket result es =
      keep_if (λ e. not (ltb (e.bucket + 1) bucket))
        (record {
          agent_a = lesser agent_a agent_b;
          agent_b = greater agent_a agent_b;
          bucket = bucket;
          result = result;
        }
          ∷ es)

  unfoldable pub invalidate_cache : ℕ → List (CacheEntry R) → List (CacheEntry R)
  unfolding keep_if
  invalidate_cache agent es = keep_if (λ e. not (e.agent_a == agent || e.agent_b == agent)) es

  abbrev pub is_link : ℕ → ℕ → PrincipalLink R → Bool
  is_link agent principal l = l.agent_id == agent && l.principal_id == principal

  -- `links_a[principal]`
  unfoldable pub confidence_of : ℕ → ℕ → List (PrincipalLink R) → Option R
  confidence_of agent principal [] = none
  confidence_of agent principal (l ∷ ls) =
      if is_link agent principal l then some l.confidence else confidence_of agent principal ls

  abbrev pub is_registered_by : String → Table String → PrincipalLink R → Bool
  is_registered_by developer developers l =
      is_registration l.link_source
      && elim (find l.agent_id developers) [ none ↦ false | some d ↦ str_eq d developer ]

  unfoldable pub registered_principal : String → Table String → List (PrincipalLink R) → Option ℕ
  registered_principal developer developers [] = none
  registered_principal developer developers (l ∷ ls) =
      if is_registered_by developer developers l
      then some l.principal_id
      else registered_principal developer developers ls

  -- `id` is a new principal's UUID.
  unfoldable pub get_or_create_principal : ℕ → String → ℕ → Resolver R → Resolver R × ℕ
  unfolding registered_principal
  get_or_create_principal id developer kya_level st =
      elim (registered_principal developer st.developers st.links) [
        | some p ↦ (st, p)
        | none ↦ (record st { principals = append id (kya_level_of kya_level) st.principals }, id)
      ]

module _ {R : Type 0} (F : Floats R) where
  abbrev pub kya_to_confidence : ℕ → R
  kya_to_confidence level =
      if level == 1
      then F.literal 5 1
      else if level == 2
      then F.literal 9 1
      else if level == 3
      then F.literal 9 1
      else F.literal 3 1

  abbrev pub raise_link : LinkSource → R → PrincipalLink R → PrincipalLink R
  raise_link source confidence l =
      if F.lt l.confidence confidence
      then record l { confidence = confidence; link_source = source }
      else l

  unfoldable pub put_link : ℕ → ℕ → LinkSource → R → List (PrincipalLink R) → List (PrincipalLink R)
  put_link agent principal source confidence [] =
      record {
        agent_id = agent;
        principal_id = principal;
        link_source = source;
        confidence = confidence;
      }
      ∷ []
  put_link agent principal source confidence (l ∷ ls) =
      if is_link agent principal l
      then raise_link source confidence l ∷ ls
      else l ∷ put_link agent principal source confidence ls

  unfoldable pub link_agent_to_principal : ℕ → ℕ → LinkSource → R → Resolver R → Resolver R
  unfolding put_link invalidate_cache
  link_agent_to_principal agent principal source confidence st = record st {
    links = put_link agent principal source confidence st.links;
    cache = invalidate_cache agent st.cache;
  }

  -- Python's `min(x, y)`
  abbrev pub min_float : R → R → R
  min_float x y = if F.lt y x then y else x

  abbrev pub both : Option R → Option R → Option R
  both (some x) (some y) = some (min_float x y)
  both _ _ = none

  -- The shared principals, each with the smaller of its two confidences.
  unfoldable pub shared : ℕ → ℕ → List (PrincipalLink R) → List (PrincipalLink R) → List (ℕ × R)
  unfolding confidence_of
  shared a b links [] = []
  shared a b links (l ∷ ls) =
      let rest = shared a b links ls in
      elim (both (confidence_of a l.principal_id links) (confidence_of b l.principal_id links)) [
        | none ↦ rest
        | some c ↦ if l.agent_id == a then (l.principal_id, c) ∷ rest else rest
      ]

  -- The first of the strongest.
  unfoldable pub strongest : ℕ × R → List (ℕ × R) → ℕ × R
  strongest top [] = top
  strongest top (x ∷ xs) = if F.lt top.1 x.1 then strongest x xs else strongest top xs

  abbrev pub grade : R → Verdict
  grade c =
      if F.lt c (F.literal 8 1)
      then (if F.lt c (F.literal 5 1) then Verdict.no_match else Verdict.soft_match)
      else Verdict.hard_match

  module _ (round4 : R → R) where
    abbrev pub match_of : List (ℕ × R) → Match R
    match_of [] = record { verdict = Verdict.no_match; confidence = F.literal 0 1; basis = none }
    match_of (x ∷ xs) =
        let top = strongest x xs in
        record { verdict = grade top.1; confidence = round4 top.1; basis = some top.0 }

    -- The decision on the links alone.
    unfoldable pub decide : ℕ → ℕ → List (PrincipalLink R) → Match R
    unfolding shared strongest
    decide agent_a agent_b links = match_of (shared agent_a agent_b links links)

    unfoldable pub is_same_principal : ℕ → ℕ → ℕ → Resolver R → Resolver R × Match R
    unfolding cache_get cache_set decide
    is_same_principal agent_a agent_b bucket st = elim (cache_get agent_a agent_b bucket st.cache) [
      | some cached ↦ (st, cached)
      | none ↦
          let result = decide agent_a agent_b st.links in
          (record st { cache = cache_set agent_a agent_b bucket result st.cache }, result)
    ]

    unfoldable pub classify_transaction : ℕ → ℕ → ℕ → Resolver R → Resolver R × SelfDealingClass
    unfolding is_same_principal
    classify_transaction requester provider bucket st =
        let (st', found) = is_same_principal requester provider bucket st in
        (st', class_of found.verdict)
