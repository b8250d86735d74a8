-- ===== src/InstanceTypes/Serve.antt =====
-- Get and List of pkg/providers/instancetype/instancetype.go, at a time, and the capacity that nodes
-- report.
use karpenter_provider_huawe.Base.{
  ℕ, String, Bool, List, [], ◌∷◌, Option, none, some, ◌==◌, if◌then◌else◌, leb, find, is_empty,
  Result, ok, err, plain, fail_if, ◌>>◌,
}
use karpenter_provider_huawe.Base.Maps.{Map, lookup}
use karpenter_provider_huawe.Ext.Ecs.{Flavor, EcsApi}
use karpenter_provider_huawe.Ext.GoCache.{GoCache}
use karpenter_provider_huawe.Ext.Scheduling.{Scheduling, InstanceType}
use karpenter_provider_huawe.InstanceTypes.{
  Resolver, ChangeMonitor, State, PriceOf, with_offerings, inject_offerings,
}
use karpenter_provider_huawe.InstanceTypes.Fetch.{from_ptr}

module _ (S : Scheduling) (G : GoCache (Unit {0})) (T : GoCache (List (InstanceType S)))
    (D : GoCache ℕ) (E : EcsApi) (M : ChangeMonitor) where
  -- it.Capacity[memory] = cached
  abbrev pub with_memory : Option ℕ → InstanceType S → InstanceType S
  with_memory none it = it
  with_memory (some bytes) it = record it { memory = bytes }

  abbrev pub discovered : ℕ → State S G T D E M → Option (InstanceType S) → Result (InstanceType S)
  discovered now s none = err (plain "failed to generate instance type %s")
  discovered now s (some it) = ok (with_memory (D.get now it.name s.discovered_capacity_cache) it)

  abbrev pub resolved :
      {C : Type 0}
      → Option (Resolver S C)
      → ℕ
      → C
      → State S G T D E M
      → Option Flavor
      → Result (InstanceType S)
  unfolding lookup
  resolved resolver now nc s none = err (plain "instance type %s not found in cache")
  resolved none now nc s (some info) = err (plain "instance types resolver is nil")
  resolved (some r) now nc s (some info) =
      discovered now s (r.resolve info (from_ptr (lookup info.name s.instance_types_offerings)) nc)

  -- The method get.
  unfoldable pub get_resolved :
      {C : Type 0}
      → Option (Resolver S C)
      → ℕ
      → C
      → String
      → State S G T D E M
      → Result (InstanceType S)
  unfolding resolved
  get_resolved resolver now nc name s =
      resolved resolver now nc s (lookup name s.instance_types_info)

  abbrev pub cache_key : {C : Type 0} → Option (Resolver S C) → C → String
  cache_key none nc = ""
  cache_key (some r) nc = r.cache_key nc

  abbrev pub check_discovered : State S G T D E M → Result (Unit {0})
  check_discovered s =
      fail_if (is_empty s.instance_types_info) (plain "no instance types found")
      >> fail_if (is_empty s.instance_types_offerings) (plain "no instance types offerings found")

  abbrev pub named : String → InstanceType S → Bool
  named name it = it.name == name

  abbrev pub find_cached : String → Option (List (InstanceType S)) → Option (InstanceType S)
  find_cached name none = none
  find_cached name (some its) = find (named name) its

  abbrev pub ok_or : Option (InstanceType S) → Result (InstanceType S) → Result (InstanceType S)
  ok_or none other = other
  ok_or (some it) other = ok it

  abbrev pub offered :
      PriceOf S G T D E M
      → ℕ
      → State S G T D E M
      → Result (InstanceType S)
      → Result (InstanceType S)
  unfolding with_offerings
  offered price now s (err e) = err e
  offered price now s (ok it) = ok (with_offerings S G T D E M price now s it)

  -- Get
  unfoldable pub get :
      {C : Type 0}
      → Option (Resolver S C)
      → PriceOf S G T D E M
      → ℕ
      → C
      → String
      → State S G T D E M
      → Result (InstanceType S)
  unfolding offered get_resolved
  get resolver price now nc name s =
      check_discovered s
      >> offered price now s (
          ok_or (find_cached name (T.get now (cache_key resolver nc) s.instance_types_cache))
            (get_resolved resolver now nc name s))

  abbrev pub cons_ok : Result (InstanceType S) → List (InstanceType S) → List (InstanceType S)
  cons_ok (err e) its = its
  cons_ok (ok it) its = it ∷ its

  -- What List makes of the flavors, those left out for which there is an error.
  unfoldable pub resolve_all :
      {C : Type 0}
      → Option (Resolver S C)
      → ℕ
      → C
      → State S G T D E M
      → Map Flavor
      → List (InstanceType S)
  unfolding get_resolved
  resolve_all resolver now nc s [] = []
  resolve_all resolver now nc s ((name, info) ∷ infos) =
      cons_ok (get_resolved resolver now nc name s) (resolve_all resolver now nc s infos)

  -- From the cache, or resolved and put into it.
  unfoldable pub cached_or_resolved :
      {C : Type 0}
      → Option (Resolver S C)
      → ℕ
      → C
      → State S G T D E M
      → Option (List (InstanceType S))
      → List (InstanceType S) × State S G T D E M
  unfolding resolve_all
  cached_or_resolved resolver now nc s (some its) = (its, s)
  cached_or_resolved resolver now nc s none =
      let its = resolve_all resolver now nc s s.instance_types_info in
      (
        its,
        record s {
          instance_types_cache =
              T.set now T.default_ttl (cache_key resolver nc) its s.instance_types_cache;
        },
      )

  abbrev pub if_discovered :
      {A : Type 0}
      → Result (Unit {0})
      → State S G T D E M
      → A × State S G T D E M
      → Result A × State S G T D E M
  if_discovered (err e) s answer = (err e, s)
  if_discovered (ok done) s (a, s') = (ok a, s')

  -- List
  unfoldable pub list :
      {C : Type 0}
      → Option (Resolver S C)
      → PriceOf S G T D E M
      → ℕ
      → C
      → State S G T D E M
      → Result (List (InstanceType S)) × State S G T D E M
  unfolding cached_or_resolved inject_offerings
  list resolver price now nc s =
      let (its, s') =
        cached_or_resolved resolver now nc s
          (T.get now (cache_key resolver nc) s.instance_types_cache) in
      if_discovered (check_discovered s) s (inject_offerings S G T D E M price now its s', s')

  abbrev pub lower_capacity : ℕ → String → ℕ → Option ℕ → D.Store → D.Store
  lower_capacity now key actual none store = D.set now D.default_ttl key actual store
  lower_capacity now key actual (some cached) store =
      if leb actual cached then D.set now D.default_ttl key actual store else store

  -- UpdateInstanceTypeCapacityFromNode, for the node's instance type and its memory in bytes.
  unfoldable pub update_instance_type_capacity_from_node :
      ℕ → String → ℕ → State S G T D E M → State S G T D E M
  update_instance_type_capacity_from_node now name actual s = record s {
    discovered_capacity_cache =
        lower_capacity now name actual (D.get now name s.discovered_capacity_cache)
          s.discovered_capacity_cache;
  }
