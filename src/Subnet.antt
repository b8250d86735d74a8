-- ===== src/Subnet.antt =====
-- pkg/providers/subnet/subnet.go: DefaultProvider, which finds the subnets of a node class, selects
-- one for a launch and tracks the addresses of launches in flight. The mutex makes each method one
-- step on the state. Logging of changes is left out. A Go map is iterated in the order of insertion.
pub mod Refreshed
pub mod Listing
pub mod Selection
pub mod Accounts
pub mod Predicted
pub mod Reservations
pub mod Counted
pub mod Fleet
pub mod Overlaps
pub mod Samples
mod Tests
use karpenter_provider_huawe.Base.{
  ℕ, ◌+str◌, String, Bool, true, false, List, [], ◌∷◌, Option, none, some, ◌==◌, ◌&&◌, ◌||◌, not,
  if◌then◌else◌, Result, ok, err, plain, wrapped, any, keep_if, is_empty,
}
use karpenter_provider_huawe.Base.Int.{ℤ, pos, negsuc, ltb_ℤ, leb_ℤ, eqb_ℤ, wrap32, ◌-i32◌, ◌+i32◌}
use karpenter_provider_huawe.Base.Decimal.{decimal}
use karpenter_provider_huawe.Base.Maps.{Map, lookup, insert, erase}
use karpenter_provider_huawe.Apis.{SubnetSelectorTerm, CceNodeClass}
use karpenter_provider_huawe.Apis
use karpenter_provider_huawe.Ext.GoCache.{GoCache}
use karpenter_provider_huawe.Ext.Scheduling.{
  Scheduling, Offering, InstanceType, capacity_type_label_key, label_topology_zone,
}

-- The subnet of the VPC API.
pub record VpcSubnet : Type 0 where
  pub id : String
  pub name : String
  pub available_ip_address_count : ℤ

-- subnet.Subnet, the selected subnet with the addresses reserved for the launch.
pub record LaunchSubnet : Type 0 where
  pub id : String
  pub available_ip_address_count : ℤ
  pub reserved_ip_address_count : ℤ

-- utils.GetNodeClassHash
unfoldable pub node_class_hash : CceNodeClass → String
unfolding decimal
node_class_hash c = c.uid +str "-" +str decimal c.generation

unfoldable pub matches_subnet_selector_term : VpcSubnet → SubnetSelectorTerm → Bool
matches_subnet_selector_term s t =
    if (t.id == "") && (t.name == "")
    then false
    else if not (t.id == "") && not (s.id == t.id)
    then false
    else if not (t.name == "") && not (s.name == t.name)
    then false
    else true

unfoldable pub matches_subnet_selector_terms : VpcSubnet → List SubnetSelectorTerm → Bool
unfolding matches_subnet_selector_term
matches_subnet_selector_terms s [] = false
matches_subnet_selector_terms s (t ∷ ts) =
    if matches_subnet_selector_term s t then true else matches_subnet_selector_terms s ts

-- The fields of DefaultProvider that change.
pub record State (C : GoCache (List VpcSubnet)) (A : GoCache ℤ) : Type 0 where
  pub cache : C.Store
  pub available_ip_address_cache : A.Store
  pub inflight_ips : Map ℤ

-- subnets[subnet.Id] = subnet
abbrev pub put_subnet : VpcSubnet → List VpcSubnet → List VpcSubnet
put_subnet s [] = s ∷ []
put_subnet s (t ∷ ts) = if t.id == s.id then s ∷ ts else t ∷ put_subnet s ts

module _ (C : GoCache (List VpcSubnet)) (A : GoCache ℤ) where
  -- NewDefaultProvider, with the caches that it is given.
  unfoldable pub new_default_provider : C.Store → A.Store → State C A
  new_default_provider cache counts = record {
    cache = cache;
    available_ip_address_cache = counts;
    inflight_ips = [];
  }

  -- The loop over the subnets of a response.
  unfoldable pub refresh :
      ℕ
      → List SubnetSelectorTerm
      → List VpcSubnet
      → State C A
      → List VpcSubnet
      → State C A × List VpcSubnet
  unfolding matches_subnet_selector_terms erase
  refresh now terms [] p subnets = (p, subnets)
  refresh now terms (s ∷ rest) p subnets =
      if matches_subnet_selector_terms s terms
      then refresh now terms rest
          (record p {
            available_ip_address_cache =
                A.set now A.default_ttl s.id s.available_ip_address_count
                  p.available_ip_address_cache;
            inflight_ips = erase s.id p.inflight_ips;
          })
          (put_subnet s subnets)
      else refresh now terms rest p subnets

  -- After a cache miss: what ListSubnets answers decides.
  unfoldable pub list_miss :
      ℕ → CceNodeClass → Result (List VpcSubnet) → State C A → Result (List VpcSubnet) × State C A
  unfolding refresh node_class_hash
  list_miss now c (err e) p = (err (wrapped "list subnets" e), p)
  list_miss now c (ok response) p =
      let (p', subnets) = refresh now c.spec.subnet_selector_terms response p [] in
      (
        ok subnets,
        record p' { cache = C.set now C.default_ttl (node_class_hash c) subnets p'.cache },
      )

  -- List. `response` is what the VPC API answers if it is asked.
  unfoldable pub list :
      ℕ → CceNodeClass → Result (List VpcSubnet) → State C A → Result (List VpcSubnet) × State C A
  unfolding list_miss node_class_hash
  list now c response p =
      if is_empty c.spec.subnet_selector_terms
      then (ok [], p)
      else elim (C.get now (node_class_hash c) p.cache) [
        | some subnets ↦ (ok subnets, p)
        | none ↦ list_miss now c response p
      ]

unfoldable pub record_count : String → Option ℤ → Map ℤ → Map ℤ
unfolding insert
record_count id none counts = counts
record_count id (some v) counts = insert id v counts

-- availableIPAddressCount of SelectForLaunch.
module _ (A : GoCache ℤ) where
  unfoldable pub available_counts : ℕ → A.Store → List Apis.Subnet → Map ℤ → Map ℤ
  unfolding record_count
  available_counts now s [] counts = counts
  available_counts now s (n ∷ ns) counts =
      available_counts now s ns (record_count n.id (A.get now n.id s) counts)

abbrev pub or_else {ℓ} : {B : Type ℓ} → Option B → B → B
or_else none d = d
or_else (some b) d = b

-- The addresses that a subnet is taken to have left: those in flight, else the cached count, else 0.
unfoldable pub ip_count : Map ℤ → Map ℤ → String → ℤ
unfolding lookup
ip_count available inflight id =
    or_else (lookup id inflight) (or_else (lookup id available) (pos 0))

-- The loop that selects the subnet with the most addresses.
unfoldable pub select_best : Map ℤ → Map ℤ → List Apis.Subnet → String × ℤ → String × ℤ
unfolding ip_count
select_best available inflight [] best = best
select_best available inflight (n ∷ ns) (id, most) =
    let count = ip_count available inflight n.id in
    select_best available inflight ns
      (if (id == "") || ltb_ℤ most count then (n.id, count) else (id, most))

abbrev pub insert_zone : String → List String → List String
insert_zone z zs = if any (λ y. y == z) zs then zs else z ∷ zs

module _ (S : Scheduling) where
  offering_zones : String → List (Offering S) → List String → List String
  offering_zones capacity_type [] zones = zones
  offering_zones capacity_type (o ∷ os) zones =
      let zone = S.get_any label_topology_zone o.requirements in
      offering_zones capacity_type os (
        if not (S.get_has capacity_type_label_key capacity_type o.requirements)
        then zones
        else if zone == ""
        then zones
        else insert_zone zone zones)

  launch_zones : String → List (InstanceType S) → List String → List String
  unfolding offering_zones
  launch_zones capacity_type [] zones = zones
  launch_zones capacity_type (it ∷ its) zones =
      launch_zones capacity_type its (offering_zones capacity_type it.offerings zones)

  -- it.Offerings.Available().HasCompatible(reqs)
  abbrev pub has_available : S.Requirements → InstanceType S → Bool
  has_available reqs it =
      any (λ o. S.compatible reqs o.requirements) (keep_if (λ o. o.available) it.offerings)

  -- lo.MinBy by the pods of the capacity.
  unfoldable pub least_pods : ℤ → List (InstanceType S) → ℤ
  least_pods least [] = least
  least_pods least (it ∷ its) = least_pods (if ltb_ℤ it.pods least then it.pods else least) its

  least_pods_of : List (InstanceType S) → ℤ
  unfolding least_pods
  least_pods_of [] = pos 0
  least_pods_of (it ∷ its) = wrap32 (least_pods it.pods its)

  unfoldable pub min_pods : List (InstanceType S) → S.Requirements → ℤ
  unfolding least_pods_of wrap32
  min_pods its reqs = least_pods_of (keep_if (has_available reqs) its)

  zone_requirements : String → String → S.Requirements
  zone_requirements capacity_type zone =
      S.new_in
        ((capacity_type_label_key, capacity_type ∷ []) ∷ (label_topology_zone, zone ∷ []) ∷ [])

  -- maxPredictedIPsUsed over the zones.
  unfoldable pub max_predicted : String → List (InstanceType S) → List String → ℤ → ℤ
  unfolding min_pods zone_requirements
  max_predicted capacity_type its [] most = most
  max_predicted capacity_type its (zone ∷ zones) most =
      let predicted = min_pods its (zone_requirements capacity_type zone) in
      max_predicted capacity_type its zones (if ltb_ℤ most predicted then predicted else most)

  unfoldable pub predicted_ips : String → List (InstanceType S) → ℤ
  unfolding max_predicted launch_zones
  predicted_ips capacity_type its =
      max_predicted capacity_type its (launch_zones capacity_type its []) (pos 0)

module _ (C : GoCache (List VpcSubnet)) (A : GoCache ℤ) where
  -- The reservation of `predicted` addresses on the selected subnet.
  unfoldable pub reserve : String → ℤ → ℤ → State C A → State C A
  unfolding lookup insert ◌-i32◌
  reserve id available predicted p =
      if ltb_ℤ (pos 0) predicted
      then record p {
        inflight_ips =
            insert id (or_else (lookup id p.inflight_ips) available -i32 predicted) p.inflight_ips;
      }
      else p

  -- The selected subnet, once the loop has come to an id.
  unfoldable pub launch : String × ℤ → ℤ → State C A → Result LaunchSubnet × State C A
  unfolding reserve
  launch (id, available) predicted p =
      if id == "" then (err (plain "no subnets matched selector"), p) else (
        ok (record {
          id = id;
          available_ip_address_count = available;
          reserved_ip_address_count = predicted;
        }),
        reserve id available predicted p,
      )

  -- SelectForLaunch, by the subnets of the node class's status.
  unfoldable pub select_among :
      (S : Scheduling)
      → ℕ
      → List Apis.Subnet
      → List (InstanceType S)
      → String
      → State C A
      → Result LaunchSubnet × State C A
  unfolding launch select_best available_counts predicted_ips
  select_among S now [] its capacity_type p = (err (plain "no subnets matched selector"), p)
  select_among S now (n ∷ ns) its capacity_type p =
      let counts = available_counts A now p.available_ip_address_cache (n ∷ ns) [] in
      launch (select_best counts p.inflight_ips (n ∷ ns) ("", negsuc 0))
        (predicted_ips S capacity_type its) p

  unfoldable pub select_for_launch :
      (S : Scheduling)
      → ℕ
      → CceNodeClass
      → List (InstanceType S)
      → String
      → State C A
      → Result LaunchSubnet × State C A
  unfolding select_among
  select_for_launch S now c its capacity_type p =
      select_among S now c.status_subnets its capacity_type p

  -- The addresses in flight after a release: `updated`, or none if the cached count is reached.
  pub released : String → ℤ → Option ℤ → Map ℤ → Map ℤ
  unfolding insert erase
  released id updated none m = insert id updated m
  released id updated (some baseline) m =
      if leb_ℤ baseline updated then erase id m else insert id updated m

  pub release_tracked : ℕ → String → ℤ → Option ℤ → State C A → State C A
  unfolding released ◌+i32◌
  release_tracked now id reserved none p = p
  release_tracked now id reserved (some current) p = record p {
    inflight_ips =
        released id (current +i32 reserved) (A.get now id p.available_ip_address_cache)
          p.inflight_ips;
  }

  -- ReleaseInflightIPs, which also clears the reservation in the subnet that the caller holds.
  unfoldable pub release_inflight_ips :
      ℕ → Option LaunchSubnet → State C A → Option LaunchSubnet × State C A
  unfolding release_tracked lookup
  release_inflight_ips now none p = (none, p)
  release_inflight_ips now (some s) p =
      if s.id == ""
      then (some s, p)
      else if eqb_ℤ s.reserved_ip_address_count (pos 0)
      then (some s, p)
      else (
        some (record s { reserved_ip_address_count = pos 0 }),
        release_tracked now s.id s.reserved_ip_address_count (lookup s.id p.inflight_ips) p,
      )
