-- ===== src/InstanceTypes/Shared.antt =====
-- List and Refresh of pkg/providers/instancetype/instancetype.go and the cache of unavailable
-- offerings that the provider shares: they read it and leave it as it is.
use karpenter_provider_huawe.Base.{ℕ, String, ◌≡◌, refl, List, Option, none, some, Result, ok, err}
use karpenter_provider_huawe.Ext.Ecs.{Flavor, EcsApi}
use karpenter_provider_huawe.Ext.GoCache.{GoCache}
use karpenter_provider_huawe.Ext.Scheduling.{Scheduling, InstanceType}
use karpenter_provider_huawe.InstanceTypes.{Resolver, ChangeMonitor, State, PriceOf}
use karpenter_provider_huawe.InstanceTypes.Fetch.{fetch_instance_types, fetch_availability_zones}
use karpenter_provider_huawe.InstanceTypes.Serve.{
  list, cached_or_resolved, if_discovered, check_discovered, cache_key,
}
use karpenter_provider_huawe.InstanceTypes.Refresh.{
  refresh, refresh_with, with_types, with_zones, update_instance_types_locked,
  update_instance_type_offerings_locked,
}

module _ (S : Scheduling) (G : GoCache (Unit {0})) (T : GoCache (List (InstanceType S)))
    (D : GoCache ℕ) (E : EcsApi) (M : ChangeMonitor) where
  abbrev Provider : Type 0
  Provider = State S G T D E M

  -- The provider has the same cache as before.
  abbrev pub SharesWith : Provider → Provider → Type 0
  SharesWith s t = t.offering_availability_cache ≡ s.offering_availability_cache

  module _ {C : Type 0} (resolver : Option (Resolver S C)) where
    cached_or_resolved-SharesWith :
        (now : ℕ) (nc : C) (s : Provider) (cached : Option (List (InstanceType S)))
        → SharesWith s (cached_or_resolved S G T D E M resolver now nc s cached).1
    unfolding cached_or_resolved
    cached_or_resolved-SharesWith now nc s (some its) = refl
    cached_or_resolved-SharesWith now nc s none = refl

    if_discovered-SharesWith :
        {A : Type 0} (found : Result (Unit {0})) (s : Provider) (a : A) (t : Provider)
        → SharesWith s t
        → SharesWith s (if_discovered S G T D E M found s (a, t)).1
    if_discovered-SharesWith (err e) s a t h = refl
    if_discovered-SharesWith (ok done) s a t h = h

    pub list-SharesWith :
        (price : PriceOf S G T D E M) (now : ℕ) (nc : C) (s : Provider)
        → SharesWith s (list S G T D E M resolver price now nc s).1
    unfolding list
    list-SharesWith price now nc s =
        if_discovered-SharesWith (check_discovered S G T D E M s) s _
          (cached_or_resolved S G T D E M resolver now nc s
            (T.get now (cache_key S G T D E M resolver nc) s.instance_types_cache)).1
          (cached_or_resolved-SharesWith now nc s _)

  with_zones-SharesWith :
      (types : List Flavor) (s : Provider) (answer : Result (List String) × E.World)
      → SharesWith s (with_zones S G T D E M (refresh_with S G T D E M types) s answer).1
  unfolding update_instance_types_locked update_instance_type_offerings_locked refresh_with
  with_zones-SharesWith types s (err e, w) = refl
  with_zones-SharesWith types s (ok zones, w) = refl

  with_types-SharesWith :
      (s : Provider) (answer : Option (Result (List Flavor)) × E.World)
      → SharesWith s
          (with_types S G T D E M
            (λ types s'.
              with_zones S G T D E M
                (refresh_with S G T D E M types)
                s'
                (fetch_availability_zones E s'.world))
            s
            answer).1
  with_types-SharesWith s (none, w) = refl
  with_types-SharesWith s (some (err e), w) = refl
  with_types-SharesWith s (some (ok types), w) =
      with_zones-SharesWith types (record s { world = w }) (fetch_availability_zones E w)

  pub refresh-SharesWith : (fuel : ℕ) (s : Provider) → SharesWith s (refresh S G T D E M fuel s).1
  unfolding refresh
  refresh-SharesWith fuel s = with_types-SharesWith s (fetch_instance_types E fuel s.world)
