-- ===== src/InstanceTypes/Refresh.antt =====
-- Refresh, UpdateInstanceTypes and UpdateInstanceTypeOfferings of
-- pkg/providers/instancetype/instancetype.go: what changes flushes the cache of instance types.
use karpenter_provider_huawe.Base.{
  ℕ, String, Bool, List, [], ◌∷◌, Option, none, some, if◌then◌else◌, Result, ok, err,
}
use karpenter_provider_huawe.Base.Maps.{Map, insert}
use karpenter_provider_huawe.Ext.Ecs.{Flavor, EcsApi}
use karpenter_provider_huawe.Ext.GoCache.{GoCache}
use karpenter_provider_huawe.Ext.Scheduling.{Scheduling, InstanceType}
use karpenter_provider_huawe.InstanceTypes.{ChangeMonitor, State}
use karpenter_provider_huawe.InstanceTypes.Zones.{
  add_all_to_set, resolve_offering_zones, zone_universe,
}
use karpenter_provider_huawe.InstanceTypes.Fetch.{fetch_instance_types, fetch_availability_zones}

-- lo.SliceToMap: of flavors with the same name the last one.
unfoldable pub infos_by_name : List Flavor → Map Flavor → Map Flavor
unfolding insert
infos_by_name [] m = m
infos_by_name (f ∷ fs) m = infos_by_name fs (insert f.name f m)

unfoldable pub offerings_by_name : List String → List Flavor → Map (List String) → Map (List String)
unfolding insert resolve_offering_zones
offerings_by_name universe [] m = m
offerings_by_name universe (f ∷ fs) m =
    offerings_by_name universe fs
      (insert f.name (resolve_offering_zones universe f.os_extra_specs) m)

unfoldable pub all_zones_of : Map (List String) → List String → List String
all_zones_of [] zones = zones
all_zones_of ((name, offered) ∷ m) zones = all_zones_of m (add_all_to_set offered zones)

module _ (S : Scheduling) (G : GoCache (Unit {0})) (T : GoCache (List (InstanceType S)))
    (D : GoCache ℕ) (E : EcsApi) (M : ChangeMonitor) where
  abbrev pub flush_if : Bool → T.Store → T.Store
  flush_if changed cache = if changed then T.empty else cache

  unfoldable pub update_instance_types_locked : List Flavor → State S G T D E M → State S G T D E M
  unfolding infos_by_name
  update_instance_types_locked types s =
      let (changed, monitor) = M.instance_types_changed types s.monitor in
      record s {
        instance_types_cache = flush_if changed s.instance_types_cache;
        instance_types_info = infos_by_name types [];
        monitor = monitor;
      }

  unfoldable pub update_instance_type_offerings_locked :
      List Flavor → List String → State S G T D E M → State S G T D E M
  unfolding offerings_by_name zone_universe all_zones_of
  update_instance_type_offerings_locked types zones s =
      let offerings = offerings_by_name (zone_universe zones types) types [] in
      let (changed, monitor) = M.offerings_changed offerings s.monitor in
      let all_zones = all_zones_of offerings [] in
      record s {
        instance_types_cache = flush_if changed s.instance_types_cache;
        instance_types_offerings = offerings;
        all_zones = all_zones;
        monitor = (M.zones_changed all_zones monitor).1;
      }

  abbrev pub Done : Type 0
  Done = Option (Result (Unit {0})) × State S G T D E M

  -- After the availability zones have been asked for.
  abbrev pub with_zones :
      (List String → State S G T D E M → State S G T D E M)
      → State S G T D E M
      → Result (List String) × E.World
      → Done
  with_zones update s (err e, w) = (some (err e), record s { world = w })
  with_zones update s (ok zones, w) = (some (ok tt), update zones (record s { world = w }))

  -- After the instance types have been asked for.
  abbrev pub with_types :
      (List Flavor → State S G T D E M → Done)
      → State S G T D E M
      → Option (Result (List Flavor)) × E.World
      → Done
  with_types goes_on s (none, w) = (none, record s { world = w })
  with_types goes_on s (some (err e), w) = (some (err e), record s { world = w })
  with_types goes_on s (some (ok types), w) = goes_on types (record s { world = w })

  unfoldable pub refresh_with : List Flavor → List String → State S G T D E M → State S G T D E M
  unfolding update_instance_type_offerings_locked update_instance_types_locked
  refresh_with types zones s =
      update_instance_type_offerings_locked types zones (update_instance_types_locked types s)

  -- Refresh
  unfoldable pub refresh : ℕ → State S G T D E M → Done
  unfolding refresh_with fetch_instance_types fetch_availability_zones
  refresh fuel s =
      with_types
        (λ types s'. with_zones (refresh_with types) s' (fetch_availability_zones E s'.world)) s
        (fetch_instance_types E fuel s.world)

  -- UpdateInstanceTypes
  unfoldable pub update_instance_types : ℕ → State S G T D E M → Done
  unfolding update_instance_types_locked fetch_instance_types
  update_instance_types fuel s =
      with_types (λ types s'. (some (ok tt), update_instance_types_locked types s')) s
        (fetch_instance_types E fuel s.world)

  -- UpdateInstanceTypeOfferings
  unfoldable pub update_instance_type_offerings : ℕ → State S G T D E M → Done
  unfolding update_instance_type_offerings_locked fetch_instance_types fetch_availability_zones
  update_instance_type_offerings fuel s =
      with_types
        (λ types s'.
          with_zones (update_instance_type_offerings_locked types) s'
            (fetch_availability_zones E s'.world))
        s (fetch_instance_types E fuel s.world)
