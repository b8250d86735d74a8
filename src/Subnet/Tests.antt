-- ===== src/Subnet/Tests.antt =====
-- The theorems on the subnet provider, at a node class with two subnets.
use karpenter_provider_huawe.Base.{
  ◌≡◌, ◌↔◌, refl, true, false, if◌then◌else◌, eqb, List, [], ◌∷◌, none, some, ok, err, plain, arith,
}
use karpenter_provider_huawe.Base.Int.{pos}
use karpenter_provider_huawe.Base.Maps.{lookup}
use karpenter_provider_huawe.Apis.Samples.{node_class}
use karpenter_provider_huawe.Ext.Scheduling.{capacity_type_on_demand}
use karpenter_provider_huawe.Ext.Samples.{value_lists}
use karpenter_provider_huawe.Subnet.{
  VpcSubnet, list, select_for_launch, release_inflight_ips, matches_subnet_selector_term,
  matches_subnet_selector_terms,
}
use karpenter_provider_huawe.Subnet.Listing.{
  Matches, Listed, fetched, matches_subnet_selector_term_iff, list-Listed, list_again,
}
use karpenter_provider_huawe.Subnet.Refreshed.{found}
use karpenter_provider_huawe.Subnet.Selection.{Outcome, select_for_launch-Outcome}
use karpenter_provider_huawe.Subnet.Reservations.{release_inflight_ips_twice}
use karpenter_provider_huawe.Subnet.Accounts.{outstanding}
use karpenter_provider_huawe.Subnet.Counted.{last_count}
use karpenter_provider_huawe.Subnet.Fleet.{
  Fleet, launched, returned, listed, Reach, here, next, IsCounted,
}
use karpenter_provider_huawe.Subnet.Overlaps.{Reach-IsCounted, Reach-idle, idle-IsCounted}
use karpenter_provider_huawe.Subnet.Samples.{
  listings, counts, base, base-IsInt32, idle, instance_types, selected, launched_provider,
  selected_lem,
}

abbrev vpc_subnets : List VpcSubnet
vpc_subnets =
    record { id = "a"; name = "nodes"; available_ip_address_count = pos 50 }
    ∷ record { id = "c"; name = "other"; available_ip_address_count = pos 9 }
    ∷ []

matching_term_run :
    (matches_subnet_selector_term
        (record { id = "a"; name = "nodes"; available_ip_address_count = pos 50 })
        (record { id = ""; name = "nodes" })
      ≡ true)
    ↔ Matches
        (record { id = "a"; name = "nodes"; available_ip_address_count = pos 50 })
        (record { id = ""; name = "nodes" })
matching_term_run =
    matches_subnet_selector_term_iff
      (record { id = "a"; name = "nodes"; available_ip_address_count = pos 50 })
      (record { id = ""; name = "nodes" })

list-Listed_example :
    let r = list listings counts 1 node_class (ok vpc_subnets) idle in
    (subnets : List VpcSubnet) × (r.0 ≡ ok subnets)
    × Listed listings counts 1 node_class.spec.subnet_selector_terms vpc_subnets idle r.1 subnets
list-Listed_example = list-Listed listings counts 1 node_class vpc_subnets idle refl refl

cached_list_run :
    let r = list listings counts 1 node_class (ok vpc_subnets) idle in
    list listings counts 90 node_class (err (plain "unreachable")) r.1 ≡ r
cached_list_run =
    list_again listings counts 1 90 node_class vpc_subnets (err (plain "unreachable")) idle refl
      (omega arith)

select_for_launch-Outcome_example :
    Outcome listings counts value_lists 1 instance_types capacity_type_on_demand idle
      node_class.status_subnets
      (select_for_launch listings counts value_lists 1 node_class instance_types
        capacity_type_on_demand idle)
select_for_launch-Outcome_example =
    select_for_launch-Outcome listings counts value_lists 1 instance_types capacity_type_on_demand
      idle node_class (refl, (refl, tt)) (λ e. cc)

abbrev start : Fleet listings counts
start = record { provider = idle; held = []; base = base; steady = λ id. true }

abbrev one_launch : Fleet listings counts
one_launch = record start {
  provider =
      (select_for_launch listings counts value_lists 1 node_class instance_types
        capacity_type_on_demand idle).1;
  held = selected ∷ [];
}

-- Both subnets of the class, one of which has fewer addresses than before.
abbrev vpc_nodes : List VpcSubnet
vpc_nodes =
    record { id = "a"; name = "nodes"; available_ip_address_count = pos 50 }
    ∷ record { id = "b"; name = "nodes"; available_ip_address_count = pos 70 }
    ∷ []

abbrev stored : List VpcSubnet
stored = fetched listings counts 2 node_class (ok vpc_nodes) one_launch.provider

abbrev with_listing : Fleet listings counts
with_listing = record one_launch {
  provider = (list listings counts 2 node_class (ok vpc_nodes) one_launch.provider).1;
  base = λ id. last_count node_class.spec.subnet_selector_terms id (base id) stored;
  steady = λ id.
      if found node_class.spec.subnet_selector_terms id stored
      then eqb (outstanding id (selected ∷ [])) 0
      else true;
}

abbrev ended : Fleet listings counts
ended = record with_listing {
  provider = (release_inflight_ips listings counts 5 (some selected) with_listing.provider).1;
  held = [];
}

begins : Reach listings counts value_lists start one_launch
begins = next here (
    launched 1 node_class instance_types capacity_type_on_demand selected (refl, (refl, tt))
      (refl, (refl, tt)) selected_lem (omega arith))

listing : Reach listings counts value_lists start with_listing
unfolding select_for_launch
listing = next begins (
    listed 2 node_class (ok vpc_nodes) (
      record { above = omega arith; below = omega arith },
      (record { above = omega arith; below = omega arith }, tt),
    ))

steady_run : (with_listing.steady "b" ≡ false) × (with_listing.base "b" ≡ pos 70)
unfolding select_for_launch matches_subnet_selector_term matches_subnet_selector_terms
steady_run = (refl, refl)

ends : Reach listings counts value_lists start ended
unfolding select_for_launch list matches_subnet_selector_terms
ends = next listing (returned 5 [] [] selected refl refl (omega arith))

Reach-IsCounted_example : IsCounted listings counts ended
Reach-IsCounted_example =
    Reach-IsCounted listings counts value_lists
      (idle-IsCounted listings counts idle base refl base-IsInt32) ends

ended_idle_run : lookup "b" ended.provider.inflight_ips ≡ none
ended_idle_run =
    Reach-idle listings counts value_lists start ended "b"
      (idle-IsCounted listings counts idle base refl base-IsInt32) ends refl

second_release_run :
    let once = release_inflight_ips listings counts 2 (some selected) launched_provider in
    release_inflight_ips listings counts 3 once.0 once.1 ≡ once
second_release_run =
    release_inflight_ips_twice listings counts 2 3 (some selected) launched_provider
