-- ===== src/InstanceTypes/Tests.antt =====
-- The theorems on instance types, at a region with two zones and a flavor that is sold out in one.
use karpenter_provider_huawe.Base.{
  ℕ, suc, ◌≡◌, refl, sym, String, true, false, List, [], ◌∷◌, ◌++◌, Option, none, some, ◌==◌, ◌&&◌,
  if◌then◌else◌, take, is_empty, ok, arith, ap,
}
use karpenter_provider_huawe.Base.Maps.{lookup}
use karpenter_provider_huawe.Ext.Ecs.{Flavor, FlavorExtraSpec, EcsApi}
use karpenter_provider_huawe.Ext.GoCache.{GoCache}
use karpenter_provider_huawe.Ext.Scheduling.{InstanceType}
use karpenter_provider_huawe.Ext.Samples.{timed_cache, value_lists}
use karpenter_provider_huawe.Subnet.Samples.{instance_type}
use karpenter_provider_huawe.InstanceTypes.{Resolver, ChangeMonitor, State, PriceOf}
use karpenter_provider_huawe.InstanceTypes.Zones.{
  has, cond_operation_status_available, parse_cond_operation_az, default_status, az_overrides,
  resolve_offering_zones,
}
use karpenter_provider_huawe.InstanceTypes.Offered.{decided, resolve_offering_zones_iff}
use karpenter_provider_huawe.InstanceTypes.Fetch.{
  list_flavors_page_size, last_flavor_id, is_marker, fetch_instance_types,
}
use karpenter_provider_huawe.InstanceTypes.Pages.{Paged, marker_of, fetch_instance_types-all}
use karpenter_provider_huawe.InstanceTypes.Serve.{list}
use karpenter_provider_huawe.InstanceTypes.Refresh.{refresh}
use karpenter_provider_huawe.InstanceTypes.Listing.{with_marks, renewed, list-renewed}
use karpenter_provider_huawe.InstanceTypes.Offers.{Offered, create_offerings-Offered}

abbrev specs : Option FlavorExtraSpec
specs = some (record {
  cond_operation_status = some "normal";
  cond_operation_az = some "z1(sellout), z3（normal）";
  ecs_instance_architecture = none;
  quota_sub_network_interface_max_num = none;
})

abbrev flavor : Flavor
flavor = record {
  id = "c7.large.2";
  name = "c7.large.2";
  vcpus = "2";
  ram = 4096;
  os_extra_specs = specs;
}

abbrev flavors : List Flavor
flavors = flavor ∷ []

parse_run :
    parse_cond_operation_az "z1(sellout), z3（normal）" ≡ ("z1", "sellout") ∷ ("z3", "normal") ∷ []
unfolding parse_cond_operation_az
parse_run = refl

zones_run : resolve_offering_zones ("z1" ∷ "z2" ∷ []) specs ≡ "z3" ∷ "z2" ∷ []
unfolding resolve_offering_zones
zones_run = refl

resolve_offering_zones_iff_example :
    has "z1" (resolve_offering_zones ("z1" ∷ "z2" ∷ []) specs)
    ≡ decided
        (lookup "z1" (az_overrides specs))
        (cond_operation_status_available (default_status specs) && has "z1" ("z1" ∷ "z2" ∷ []))
resolve_offering_zones_iff_example = resolve_offering_zones_iff "z1" ("z1" ∷ "z2" ∷ []) specs

-- A service with the one flavor: after its id there are no more.
abbrev answer_after : Option String → List Flavor
answer_after none = flavors
answer_after (some marker) = if marker == "c7.large.2" then [] else flavors

abbrev ecs : EcsApi
ecs = record {
  World = ℕ;
  list_flavors = λ limit marker w. (ok (some (answer_after marker)), suc w);
  list_server_az_info = λ w. (ok (some ("z1" ∷ "z2" ∷ [])), suc w);
}

abbrev monitor : ChangeMonitor
monitor = record {
  Monitor = Unit {0};
  new_change_monitor = tt;
  instance_types_changed = λ types m. (true, m);
  offerings_changed = λ offerings m. (true, m);
  zones_changed = λ zones m. (true, m);
}

abbrev marks : GoCache (Unit {0})
marks = timed_cache (Unit {0}) 100

abbrev type_cache : GoCache (List (InstanceType value_lists))
type_cache = timed_cache (List (InstanceType value_lists)) 100

abbrev capacities : GoCache ℕ
capacities = timed_cache ℕ 100

abbrev resolver : Option (Resolver value_lists String)
resolver = some (record {
  cache_key = λ nc. nc;
  resolve = λ info zones nc. some (record instance_type { name = info.name });
})

abbrev start : State value_lists marks type_cache capacities ecs monitor
start = record {
  instance_types_info = [];
  instance_types_offerings = [];
  all_zones = [];
  instance_types_cache = type_cache.empty;
  discovered_capacity_cache = capacities.empty;
  offering_availability_cache = none;
  monitor = tt;
  world = 0;
}

abbrev price : PriceOf value_lists marks type_cache capacities ecs monitor
price = some (λ name. some 7)

abbrev provider : State value_lists marks type_cache capacities ecs monitor
provider = record start {
  instance_types_info = ("c7.large.2", flavor) ∷ [];
  instance_types_offerings = ("c7.large.2", "z3" ∷ "z2" ∷ []) ∷ [];
  all_zones = "z3" ∷ "z2" ∷ [];
}

refresh_run :
    (refresh value_lists marks type_cache capacities ecs monitor 1 start).1.all_zones
    ≡ "z2" ∷ "z3" ∷ []
unfolding refresh
refresh_run = refl

create_offerings-Offered_example :
    Offered value_lists marks type_cache capacities ecs monitor price 5 instance_type provider
create_offerings-Offered_example =
    create_offerings-Offered value_lists marks type_cache capacities ecs monitor price 5
      instance_type provider

list-renewed_example :
    (list value_lists marks type_cache capacities ecs monitor resolver price 9 "nc" (
      with_marks value_lists marks type_cache capacities ecs monitor price none
        (list value_lists marks type_cache capacities ecs monitor resolver price 5 "nc"
          provider).1)).0
    ≡ renewed value_lists marks type_cache capacities ecs monitor price 9
        (with_marks value_lists marks type_cache capacities ecs monitor price none
          (list value_lists marks type_cache capacities ecs monitor resolver price 5 "nc"
            provider).1)
        (list value_lists marks type_cache capacities ecs monitor resolver price 5 "nc" provider).0
list-renewed_example =
    list-renewed value_lists marks type_cache capacities ecs monitor price resolver 5 9 "nc"
      provider none refl (omega arith)

ecs-answers :
    (front rest : List Flavor) (w : ℕ)
    → front ++ rest ≡ flavors
    → ok (some (answer_after (marker_of front))) ≡ ok (some (take list_flavors_page_size rest))
ecs-answers [] rest w e = ap (λ fs. ok (some (take list_flavors_page_size fs))) (sym e)
ecs-answers (f ∷ []) [] w e =
    ap (λ g. ok (some (answer_after (some (last_flavor_id (g ∷ [])))))) {x = f} {y = flavor} (cc e)
ecs-answers (f ∷ []) (g ∷ rest) w e = cc e
ecs-answers (f ∷ g ∷ front) rest w e = cc e

ecs-named :
    (front page rest : List Flavor)
    → front ++ page ++ rest ≡ flavors
    → is_empty page ≡ false
    → (last_flavor_id page == "") ≡ false
ecs-named front [] rest e h = cc h
ecs-named [] (p ∷ []) [] e h = ap (λ fs. last_flavor_id fs == "") e
ecs-named [] (p ∷ []) (q ∷ rest) e h = cc e
ecs-named [] (p ∷ q ∷ page) rest e h = cc e
ecs-named (f ∷ []) (p ∷ page) rest e h = cc e
ecs-named (f ∷ g ∷ front) (p ∷ page) rest e h = cc e

ecs-advances :
    (front page rest : List Flavor)
    → front ++ page ++ rest ≡ flavors
    → is_empty page ≡ false
    → is_marker (marker_of front) (last_flavor_id page) ≡ false
ecs-advances front [] rest e h = cc h
ecs-advances [] (p ∷ page) rest e h = refl
ecs-advances (f ∷ []) (p ∷ page) rest e h = cc e
ecs-advances (f ∷ g ∷ front) (p ∷ page) rest e h = cc e

ecs-Paged : Paged ecs flavors
ecs-Paged = record { answers = ecs-answers; named = ecs-named; advances = ecs-advances }

fetch_instance_types-all_example : (fetch_instance_types ecs 1 0).0 ≡ some (ok flavors)
fetch_instance_types-all_example = fetch_instance_types-all ecs flavors ecs-Paged 1 0 (omega arith)
