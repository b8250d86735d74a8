-- ===== src/Operator/Samples.antt =====
-- Services for the tests of the operator: a region with one flavor and two zones, in which no node
-- can be had, all within one tick of the clock, and the resolver of instance types of the program.
use karpenter_provider_huawe.Base.{
  ℕ, suc, ◌+◌, String, List, [], ◌∷◌, Option, none, some, true, false, ok, err, service, map, arith,
}
use karpenter_provider_huawe.Base.Int.{ℤ, pos}
use karpenter_provider_huawe.Apis.{CceNodeClass}
use karpenter_provider_huawe.Apis.Samples.{node_class}
use karpenter_provider_huawe.Ext.Billing.{DemandProductInfo, RatingResult, Billing}
use karpenter_provider_huawe.Ext.Ecs.{Flavor, EcsApi}
use karpenter_provider_huawe.Ext.Samples.{timed_cache, unit_prices, value_lists}
use karpenter_provider_huawe.Ext.Scheduling.{InstanceType}
use karpenter_provider_huawe.Subnet.{VpcSubnet}
use karpenter_provider_huawe.InstanceType.Samples.{with_integers, whole_percents, flavor}
use karpenter_provider_huawe.InstanceType.Resolve.{cache_key, resolve}
use karpenter_provider_huawe.InstanceTypes.{ChangeMonitor, Resolver}
use karpenter_provider_huawe.Version
use karpenter_provider_huawe.Version.Samples.{cluster}
use karpenter_provider_huawe.Operator.Clients.{NodeService, Services}
use karpenter_provider_huawe.Operator.{Operator}
use karpenter_provider_huawe.Operator.Run.{new_operator, made, list_subnets}

abbrev pub full_region : NodeService
full_region = record {
  World = ℕ;
  clock = λ w. 1;
  create_node = λ cluster_id spec w. (
    err (
        service
          (record { status_code = 400; error_code = "CCE_CM.0021"; error_message = "sold out" })),
    w + 1,
  );
  clock-create_node = λ cluster_id spec w. omega arith;
  show_node = λ cluster_id id w. ok none;
  list_nodes = λ cluster_id w. ok none;
  delete_node = λ cluster_id id w. (ok tt, w + 1);
  batch_create_server_tags = λ id tags w. (ok tt, w + 1);
}

abbrev pub rate : DemandProductInfo → RatingResult ℕ
rate p = record { id = some p.id; amount = some 7; official_website_amount = none }

abbrev pub billing : Billing
billing = record {
  float = unit_prices;
  is_nan = λ x. false;
  is_inf = λ x. false;
  Decimal = ℕ;
  inexact_float64 = λ d. d;
  unmarshal_payload = λ text. none;
  World = ℕ;
  list_on_demand_resource_ratings = λ project precision ps w. (ok (some (map rate ps)), suc w);
}

abbrev pub flavors_after : Option String → List Flavor
flavors_after none = flavor ∷ []
flavors_after (some marker) = []

abbrev pub ecs : EcsApi
ecs = record {
  World = ℕ;
  list_flavors = λ limit marker w. (ok (some (flavors_after marker)), suc w);
  list_server_az_info = λ w. (ok (some ("z1" ∷ "z2" ∷ [])), suc w);
}

abbrev pub monitor : ChangeMonitor
monitor = record {
  Monitor = Unit {0};
  new_change_monitor = tt;
  instance_types_changed = λ types m. (true, m);
  offerings_changed = λ offerings m. (true, m);
  zones_changed = λ zones m. (true, m);
}

abbrev pub resolver : Resolver value_lists CceNodeClass
resolver = record {
  cache_key = λ nc. cache_key (λ i. i.runtime_type) nc.spec;
  resolve =
      λ info zones nc. resolve value_lists with_integers whole_percents "r" info zones nc.spec;
}

abbrev pub services : Services
services = record {
  region = "r";
  cluster_id = "c1";
  project_id = "p";
  nodes = full_region;
  billing = billing;
  ecs = ecs;
  cluster = cluster "36";
  scheduling = value_lists;
  quantities = with_integers;
  monitor = monitor;
  marks = timed_cache (Unit {0}) 100;
  types = timed_cache (List (InstanceType value_lists)) 100;
  capacities = timed_cache ℕ 100;
  listings = timed_cache (List VpcSubnet) 100;
  counts = timed_cache ℤ 100;
  resolver = resolver;
}

-- The operator when it has started, and after the subnets were listed.
unfoldable pub or_made : Option (Operator services) → Operator services
unfolding made
or_made none = made services 1 0 0 (Version.new_default_provider (cluster "36") 0)
or_made (some o) = o

unfoldable pub fresh : Operator services
unfolding or_made new_operator
fresh = or_made (new_operator services 1 1 0 0 0)

abbrev pub vpc_subnets : List VpcSubnet
vpc_subnets =
    record { id = "a"; name = "nodes"; available_ip_address_count = pos 50 }
    ∷ record { id = "b"; name = "nodes"; available_ip_address_count = pos 80 }
    ∷ []

unfoldable pub idle : Operator services
unfolding fresh list_subnets
idle = list_subnets services node_class (ok vpc_subnets) fresh
