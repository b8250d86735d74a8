-- ===== src/Subnet/Listing.antt =====
-- List of pkg/providers/subnet/subnet.go: which subnets it finds, and what a refresh forgets.
use karpenter_provider_huawe.Base.{
  ℕ, ◌+◌, ◌≤◌, ◌≡◌, ◌≢◌, ◌⊎◌, ◌↔◌, inl, inr, refl, find, String, Bool, true, false, List, [],
  Option, Option-cases, none, some, ◌==◌, if◌then◌else◌, Result, ok, err, All, is_empty, arith,
  eq_iff, eq_refl, Bool-cases,
}
use karpenter_provider_huawe.Base.Int.{ℤ}
use karpenter_provider_huawe.Base.Maps.{lookup}
use karpenter_provider_huawe.Apis.{SubnetSelectorTerm, CceNodeClass}
use karpenter_provider_huawe.Ext.GoCache.{GoCache}
use karpenter_provider_huawe.Subnet.{
  VpcSubnet, State, matches_subnet_selector_term, matches_subnet_selector_terms, refresh, list_miss,
  list, node_class_hash,
}
use karpenter_provider_huawe.Subnet.Refreshed.{
  has_id, found, last_found, last_cached, HasDistinctIds, refresh-IsMatch, refresh-has_id,
  refresh-HasDistinctIds, refresh-find, refresh-counts, refresh-inflight,
}

-- The term names an id or a name, and the subnet has whichever it names.
abbrev pub Matches : VpcSubnet → SubnetSelectorTerm → Type 0
Matches s t =
    ((t.id ≢ "") ⊎ (t.name ≢ ""))
    × ((t.id ≡ "") ⊎ (s.id ≡ t.id))
    × ((t.name ≡ "") ⊎ (s.name ≡ t.name))

-- A subnet matches a selector term exactly if the term is not empty and every part that it gives,
-- the id and the name, is the subnet's.
pub matches_subnet_selector_term_iff :
    (s : VpcSubnet) (t : SubnetSelectorTerm)
    → (matches_subnet_selector_term s t ≡ true) ↔ Matches s t
unfolding matches_subnet_selector_term
matches_subnet_selector_term_iff s t = (
  (λ h.
      ground (arith, h, eq_iff t.id "", eq_iff t.name "", eq_iff s.id t.id, eq_iff s.name t.name)),
  (λ h.
      ground (arith, h, eq_iff t.id "", eq_iff t.name "", eq_iff s.id t.id, eq_iff s.name t.name)),
)

-- What a listing that asked the VPC API at `now` answers, and what it leaves.
pub record Listed (C : GoCache (List VpcSubnet)) (A : GoCache ℤ) (now : ℕ)
    (terms : List SubnetSelectorTerm) (response : List VpcSubnet) (p q : State C A)
    (subnets : List VpcSubnet) : Type 0 where
  pub sound : All (λ s. matches_subnet_selector_terms s terms ≡ true) subnets
  pub distinct : HasDistinctIds subnets
  pub complete : (id : String) → has_id id subnets ≡ found terms id response
  pub latest : (id : String) → find (λ s. s.id == id) subnets ≡ last_found terms id none response
  pub counts :
      (later : ℕ) (id : String)
      → A.get later id q.available_ip_address_cache
        ≡ last_cached later
            (now + A.default_ttl)
            terms
            id
            (A.get later id p.available_ip_address_cache)
            response
  pub forgotten :
      (id : String)
      → lookup id q.inflight_ips ≡ (if has_id id subnets then none else lookup id p.inflight_ips)

-- When the node class has selector terms and nothing is cached for it, List returns subnets that
-- match the terms, no two with the same id, and one for each id that a matching subnet of the response
-- has, which is the last one of the response; the addresses in flight are forgotten for just these, and
-- their counts are cached anew, each for the cache's time to live, those of other subnets as they were.
pub list-Listed :
    (C : GoCache (List VpcSubnet)) (A : GoCache ℤ) (now : ℕ) (c : CceNodeClass)
    (response : List VpcSubnet) (p : State C A)
    → is_empty c.spec.subnet_selector_terms ≡ false
    → C.get now (node_class_hash c) p.cache ≡ none
    → let r = list C A now c (ok response) p in
      (subnets : List VpcSubnet) × (r.0 ≡ ok subnets)
      × Listed C A now c.spec.subnet_selector_terms response p r.1 subnets
unfolding list list_miss
list-Listed C A now c response p some_term miss =
    rw (some_term, miss, list)
      (
        (refresh C A now c.spec.subnet_selector_terms response p []).1,
        refl,
        record {
          sound = refresh-IsMatch C A now c.spec.subnet_selector_terms response p [] tt;
          distinct = refresh-HasDistinctIds C A now c.spec.subnet_selector_terms response p [] tt;
          complete = λ id. refresh-has_id C A now c.spec.subnet_selector_terms id response p [];
          latest = λ id. refresh-find C A now c.spec.subnet_selector_terms id response p [];
          counts = λ later id.
              refresh-counts C A now c.spec.subnet_selector_terms later id response p [];
          forgotten = λ id. ground (
            arith,
            refresh-has_id C A now c.spec.subnet_selector_terms id response p [],
            refresh-inflight C A now c.spec.subnet_selector_terms id response p [],
          );
        },
      )

module _ (C : GoCache (List VpcSubnet)) (A : GoCache ℤ) (now : ℕ) (c : CceNodeClass) where
  list_hit :
      (answer : Result (List VpcSubnet)) (p : State C A) (subnets : List VpcSubnet)
      → is_empty c.spec.subnet_selector_terms ≡ false
      → C.get now (node_class_hash c) p.cache ≡ some subnets
      → list C A now c answer p ≡ (ok subnets, p)
  unfolding list
  list_hit answer p subnets e hit = rw (e, hit, list)

  list_missed :
      (answer : Result (List VpcSubnet)) (p : State C A)
      → is_empty c.spec.subnet_selector_terms ≡ false
      → C.get now (node_class_hash c) p.cache ≡ none
      → list C A now c answer p ≡ list_miss C A now c answer p
  unfolding list
  list_missed answer p e miss = rw (e, miss, list)

  list_no_terms :
      (answer : Result (List VpcSubnet)) (p : State C A)
      → is_empty c.spec.subnet_selector_terms ≡ true
      → list C A now c answer p ≡ (ok [], p)
  unfolding list
  list_no_terms answer p e = rw e

list_miss-caches :
    (C : GoCache (List VpcSubnet)) (A : GoCache ℤ) (now later : ℕ) (c : CceNodeClass)
    (response : List VpcSubnet) (p : State C A)
    → later ≤ now + C.default_ttl
    → C.get later (node_class_hash c) (list_miss C A now c (ok response) p).1.cache
      ≡ some (refresh C A now c.spec.subnet_selector_terms response p []).1
unfolding list_miss
list_miss-caches C A now later c response p fresh =
    rw (C.get-set now later C.default_ttl (node_class_hash c) (node_class_hash c), eq_refl)
      (ground arith)

-- Asked again for the same generation of the node class before the entry expires, List gives the
-- same subnets from the cache, whatever the API would answer, and changes nothing.
pub list_again :
    (C : GoCache (List VpcSubnet)) (A : GoCache ℤ) (now later : ℕ) (c : CceNodeClass)
    (response : List VpcSubnet) (other : Result (List VpcSubnet)) (p : State C A)
    → C.get now (node_class_hash c) p.cache ≡ none
    → later ≤ now + C.default_ttl
    → let r = list C A now c (ok response) p in list C A later c other r.1 ≡ r
unfolding list_miss
list_again C A now later c response other p miss fresh =
    elim (Bool-cases (is_empty c.spec.subnet_selector_terms)) [
      | inl e ↦ rw (list_no_terms C A now c (ok response) p e) (list_no_terms C A later c other p e)
      | inr e ↦
          rw (list_missed C A now c (ok response) p e miss)
            (list_hit C A later c other _ _ e (list_miss-caches C A now later c response p fresh))
    ]

-- The subnets of the response that List stores: none where it asks for nothing, finds an entry in the
-- cache or gets an error.
abbrev pub asked_for : Bool → Option (List VpcSubnet) → Result (List VpcSubnet) → List VpcSubnet
asked_for true cached answer = []
asked_for false (some subnets) answer = []
asked_for false none (err e) = []
asked_for false none (ok response) = response

module _ (C : GoCache (List VpcSubnet)) (A : GoCache ℤ) (now : ℕ) (c : CceNodeClass) where
  abbrev pub fetched : Result (List VpcSubnet) → State C A → List VpcSubnet
  fetched answer p =
      asked_for (is_empty c.spec.subnet_selector_terms) (C.get now (node_class_hash c) p.cache)
        answer

  list_miss-inflight :
      (id : String) (answer : Result (List VpcSubnet)) (p : State C A)
      → lookup id (list_miss C A now c answer p).1.inflight_ips ≡ (
          if found c.spec.subnet_selector_terms id (asked_for false none answer)
          then none
          else lookup id p.inflight_ips)
  unfolding list_miss
  list_miss-inflight id (err e) p = refl
  list_miss-inflight id (ok response) p =
      refresh-inflight C A now c.spec.subnet_selector_terms id response p []

  -- A listing forgets the addresses in flight of just the subnets that it stores.
  pub list-inflight :
      (id : String) (answer : Result (List VpcSubnet)) (p : State C A)
      → lookup id (list C A now c answer p).1.inflight_ips ≡ (
          if found c.spec.subnet_selector_terms id (fetched answer p)
          then none
          else lookup id p.inflight_ips)
  list-inflight id answer p = elim (Bool-cases (is_empty c.spec.subnet_selector_terms)) [
    | inl e ↦ rw (list_no_terms C A now c answer p e, e) refl
    | inr e ↦ elim (Option-cases (C.get now (node_class_hash c) p.cache)) [
      | inl miss ↦
          rw (list_missed C A now c answer p e miss, e, miss) (list_miss-inflight id answer p)
      | inr (subnets, hit) ↦ rw (list_hit C A now c answer p subnets e hit, e, hit) refl
    ]
  ]
