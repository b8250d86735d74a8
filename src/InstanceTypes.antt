-- ===== src/InstanceTypes.antt =====
-- pkg/providers/instancetype/instancetype.go: the instance types that a node class can have, with
-- their offerings. What a flavor becomes for a node class is cached; the offerings are made anew for
-- every answer.
pub mod Zones
pub mod Offered
pub mod Fetch
pub mod Serve
pub mod Refresh
pub mod Listing
pub mod Pages
pub mod Offers
pub mod Shared
mod Tests
use Prim.Native.String.{compare}
use text.Mathlib.Text.{is_lt}
use karpenter_provider_huawe.Base.{
  ℕ, String, Bool, true, false, List, [], ◌∷◌, ◌++◌, map, Option, none, some, ◌==◌, not,
  if◌then◌else◌, leb, find, length, is_empty, Result, ok, err, Error, plain,
}
use karpenter_provider_huawe.Base.Maps.{Map, lookup, insert}
use karpenter_provider_huawe.Base.Sort.{sort_slice}
use karpenter_provider_huawe.Ext.Ecs.{Flavor, EcsApi}
use karpenter_provider_huawe.Ext.GoCache.{GoCache}
use karpenter_provider_huawe.Ext.Scheduling.{
  Scheduling, InstanceType, Offering, capacity_type_label_key, capacity_type_on_demand,
  label_topology_zone,
}
use karpenter_provider_huawe.OfferingCache.{OfferingCache, is_unavailable}
use karpenter_provider_huawe.InstanceTypes.Zones.{
  add_all_to_set, resolve_offering_zones, zone_universe,
}
use karpenter_provider_huawe.InstanceTypes.Fetch.{fetch_instance_types, fetch_availability_zones}

-- Resolver, for the node classes `C`; a nil result is `none`.
pub record Resolver (S : Scheduling) (C : Type 0) : Type 0 where
  pub cache_key : C → String
  pub resolve : Flavor → List String → C → Option (InstanceType S)

-- pretty.ChangeMonitor of Karpenter, for the values that the provider gives it.
pub record ChangeMonitor : Type 1 where
  pub Monitor : Type 0
  -- pretty.NewChangeMonitor()
  pub new_change_monitor : Monitor
  pub instance_types_changed : List Flavor → Monitor → Bool × Monitor
  pub offerings_changed : Map (List String) → Monitor → Bool × Monitor
  pub zones_changed : List String → Monitor → Bool × Monitor

abbrev pub before_text : String → String → Bool
before_text a b = is_lt (compare a b)

-- requirements[key].Values()
abbrev pub values_of : (S : Scheduling) → Option S.Requirement → List String
values_of S none = []
values_of S (some r) = S.values r

abbrev pub or_else {ℓ} : {A : Type ℓ} → List A → List A → List A
or_else [] other = other
or_else (x ∷ xs) other = x ∷ xs

-- The zones of an instance type with none of its own: those of its offerings, or all.
abbrev pub known_zones : Option (List String) → List String → List String
known_zones none all_zones = all_zones
known_zones (some zones) all_zones = zones

-- The services that the provider is made with, and the caches that it is given.
module _ (S : Scheduling) (G : GoCache (Unit {0})) (T : GoCache (List (InstanceType S)))
    (D : GoCache ℕ) (E : EcsApi) (M : ChangeMonitor) where
  pub record State : Type 0 where
    pub instance_types_info : Map Flavor
    pub instance_types_offerings : Map (List String)
    pub all_zones : List String
    pub instance_types_cache : T.Store
    pub discovered_capacity_cache : D.Store
    pub offering_availability_cache : Option (OfferingCache G)
    pub monitor : M.Monitor
    pub world : E.World

  -- NewDefaultProvider, with the caches that it is given.
  unfoldable pub new_default_provider :
      T.Store → D.Store → Option (OfferingCache G) → E.World → State
  new_default_provider types capacities offerings w = record {
    instance_types_info = [];
    instance_types_offerings = [];
    all_zones = [];
    instance_types_cache = types;
    discovered_capacity_cache = capacities;
    offering_availability_cache = offerings;
    monitor = M.new_change_monitor;
    world = w;
  }

  -- InstanceTypeInfos, a copy of the map.
  unfoldable pub instance_type_infos : State → Map Flavor
  instance_type_infos s = s.instance_types_info

  -- The price function is the one of the pricing provider, if there is one.
  abbrev pub PriceOf : Type 0
  PriceOf = Option (String → Option S.float.Float)

  abbrev pub known_price : Option S.float.Float → S.float.Float
  known_price none = S.float.max_float
  known_price (some x) = x

  abbrev pub price_by : PriceOf → String → S.float.Float
  price_by none name = S.float.zero
  price_by (some on_demand_price) name = known_price (on_demand_price name)

  unfoldable pub offering_price : PriceOf → String → String → S.float.Float
  offering_price price capacity_type name =
      if capacity_type == capacity_type_on_demand then price_by price name else S.float.zero

  unfoldable pub offering_of :
      PriceOf → ℕ → Option (OfferingCache G) → String → String → String → Offering S
  unfolding is_unavailable offering_price
  offering_of price now marks name zone capacity_type = record {
    requirements =
        S.new_in
          ((capacity_type_label_key, capacity_type ∷ []) ∷ (label_topology_zone, zone ∷ []) ∷ []);
    price = offering_price price capacity_type name;
    available = not (is_unavailable G now capacity_type name zone marks);
  }

  -- The loops over the zones and the capacity types.
  unfoldable pub offerings_of :
      (String → String → Offering S) → List String → List String → List (Offering S)
  offerings_of make [] capacity_types = []
  offerings_of make (zone ∷ zones) capacity_types =
      map (make zone) capacity_types ++ offerings_of make zones capacity_types

  unfoldable pub available_zones : InstanceType S → State → List String
  unfolding lookup
  available_zones it s =
      or_else (values_of S (S.requirement label_topology_zone it.requirements))
        (known_zones (lookup it.name s.instance_types_offerings) s.all_zones)

  unfoldable pub capacity_types_of : InstanceType S → List String
  capacity_types_of it =
      or_else (values_of S (S.requirement capacity_type_label_key it.requirements))
        (capacity_type_on_demand ∷ [])

  unfoldable pub create_offerings : PriceOf → ℕ → InstanceType S → State → List (Offering S)
  unfolding offerings_of offering_of available_zones capacity_types_of sort_slice
  create_offerings price now it s =
      offerings_of (offering_of price now s.offering_availability_cache it.name)
        (sort_slice before_text (available_zones it s))
        (sort_slice before_text (capacity_types_of it))

  unfoldable pub with_offerings : PriceOf → ℕ → State → InstanceType S → InstanceType S
  unfolding create_offerings
  with_offerings price now s it = record it { offerings = create_offerings price now it s }

  unfoldable pub inject_offerings :
      PriceOf → ℕ → List (InstanceType S) → State → List (InstanceType S)
  unfolding with_offerings
  inject_offerings price now its s = map (with_offerings price now s) its
