-- ===== src/Instance/Tests.antt =====
-- The theorems on the instance provider, at a node class with two subnets and an instance type that
-- has no capacity left in the cheaper zone.
use karpenter_provider_huawe.Base.{
  map, keep_if, true, ℕ, ◌+◌, ◌≡◌, ◌⊎◌, ◌↔◌, inl, refl, List, [], ◌∷◌, ◌++◌, Option, none, some, ok,
  Result, arith, length, All, String,
}
use karpenter_provider_huawe.Base.Int.{pos}
use karpenter_provider_huawe.Base.Maps.{Map, lookup}
use karpenter_provider_huawe.Base.Sort.{IsSortedBy}
use karpenter_provider_huawe.Apis.{normalized_login, normalized_block_device_mappings}
use karpenter_provider_huawe.Apis.Samples.{node_class, spec, kubelet}
use karpenter_provider_huawe.Ext.Scheduling.{capacity_type_on_demand}
use karpenter_provider_huawe.Ext.Samples.{value_lists}
use karpenter_provider_huawe.Subnet.Samples.{
  listings, counts, base, base-IsInt32, idle, instance_type, instance_types,
}
use karpenter_provider_huawe.Subnet.Reservations.{System, IsBalanced, idle-IsBalanced}
use karpenter_provider_huawe.Instance.Kubelet.{
  parse_quantity_as_milli_value, parse_quantity_as_binary_unit_value, parse_pid_value,
  ReservedValues, NodeExtendParam, no_values, parse_reserved_values,
  validate_kubelet_for_create_node, resolve_create_node_kubelet,
}
use karpenter_provider_huawe.Instance.Kubelet.Reserved.{
  AllFit, IsSupported, IsSendable, parse_reserved_values-AllFit, resolve_iff_validate,
  resolve-IsSendable,
}
use karpenter_provider_huawe.Instance.NodeSpec.{
  resolve_storage, to_cce_taints, NodeSpec, Taint, Volume, no_schedule, no_execute,
  node_spec_for_candidate, resolve_login, to_cce_volume, resolve_data_volumes,
}
use karpenter_provider_huawe.Instance.NodeSpec.Taints.{
  last_with, HasOneEach, IsAccepted, sent, taints_or_nil, to_cce_taints-sent,
}
use karpenter_provider_huawe.Instance.NodeSpec.Effective.{
  login_of, volumes_of, resolve_login-login_of, volumes-volumes_of,
}
use karpenter_provider_huawe.Instance.Candidates.{
  Candidate, build_create_candidates, filter_unavailable_candidates, candidate_less,
}
use karpenter_provider_huawe.Instance.Candidates.Order.{cheaper, build_create_candidates-IsSortedBy}
use karpenter_provider_huawe.Instance.Candidates.Filter.{
  open_candidates, filter_unavailable_candidates-Board,
}
use karpenter_provider_huawe.OfferingCache.{new_offering_availability_cache, mark_unavailable}
use karpenter_provider_huawe.OfferingCache.Board.{Mark, mark_all, close_all, all_open}
use karpenter_provider_huawe.Instance.Create.{instance_of, try_candidates, create}
use karpenter_provider_huawe.Instance.Queries.{
  Instance, CceNode, listed_instances, instance_from_cce_node_parts, shown,
}
use karpenter_provider_huawe.Instance.Queries.Nodes.{
  has_uid, listed_instances-keep_if, shown-instance_of,
}
use karpenter_provider_huawe.Instance.Create.Tries.{Returned, Exhausted, try_candidates-Outcome}
use karpenter_provider_huawe.Instance.Create.Inflight.{create-IsBalanced}
use karpenter_provider_huawe.Instance.Samples.{
  thousandths, unit_prices-IsPriceOrder, api, marks, unmarked, session, claim,
}

abbrev kube_reserved : ReservedValues
kube_reserved = record no_values { cpu = some (pos 100); memory = some (pos 512) }

parse_reserved_values-AllFit_example : AllFit kube_reserved × All IsSupported kubelet.kube_reserved
unfolding parse_reserved_values parse_quantity_as_milli_value parse_quantity_as_binary_unit_value
parse_reserved_values-AllFit_example =
    parse_reserved_values-AllFit thousandths kubelet.kube_reserved kube_reserved refl

resolve_iff_validate_example :
    (validate_kubelet_for_create_node thousandths (some kubelet) ≡ ok (tt {0})) ↔ (
      (p : Option NodeExtendParam) × (resolve_create_node_kubelet thousandths (some kubelet)
        ≡ ok p))
resolve_iff_validate_example = resolve_iff_validate thousandths (some kubelet)

abbrev params : NodeExtendParam
params = record {
  max_pods = some (pos 110);
  kube_reserved = kube_reserved;
  system_reserved = record no_values { pid = some (pos 1000) };
}

resolve-IsSendable_example :
    IsSendable thousandths params
    × (params.max_pods ≡ kubelet.max_pods)
    × (parse_reserved_values thousandths kubelet.kube_reserved ≡ ok params.kube_reserved)
    × (parse_reserved_values thousandths kubelet.system_reserved ≡ ok params.system_reserved)
unfolding resolve_create_node_kubelet parse_quantity_as_milli_value
    parse_quantity_as_binary_unit_value parse_pid_value
resolve-IsSendable_example = resolve-IsSendable thousandths kubelet params refl

to_cce_taints-sent_example :
    (entries : Map Taint) × (taints_or_nil (to_cce_taints claim.startup_taints claim.taints)
      ≡ sent entries)
    × HasOneEach entries
    × ((k : String)
        → lookup k entries
          ≡ last_with k (
              record { key = "karpenter.sh/unregistered"; value = ""; effect = "NoExecute" }
                ∷ claim.startup_taints
              ++ claim.taints))
    × All IsAccepted (sent entries)
to_cce_taints-sent_example =
    to_cce_taints-sent claim.startup_taints claim.taints (inl refl, tt) (inl refl, tt)

-- A network-unavailable taint that leaves its effect open passes the filter, and is sent.
sent_with_no_effect :
    to_cce_taints []
      (record { key = "node.kubernetes.io/network-unavailable"; value = ""; effect = "" } ∷ [])
    ≡ some (
        record { key = "karpenter.sh/unregistered"; value = none; effect = no_execute }
        ∷ record {
          key = "node.kubernetes.io/network-unavailable";
          value = none;
          effect = no_schedule;
        }
        ∷ [])
unfolding to_cce_taints
sent_with_no_effect = refl

resolve_login-login_of_example :
    resolve_login (some spec.login) ≡ login_of (normalized_login (some spec))
resolve_login-login_of_example = resolve_login-login_of spec

volumes-volumes_of_example :
    let root = to_cce_volume spec.block_device_mappings.root in
    ◌≡◌ {A = Volume × Option (List Volume)}
      (root, resolve_data_volumes spec.block_device_mappings root.volumetype)
      (volumes_of (normalized_block_device_mappings (some spec)))
volumes-volumes_of_example =
    volumes-volumes_of spec ((λ e. cc), (λ e. cc)) ((λ e. cc), (λ e. cc)) tt

abbrev candidate : String → ℕ → Candidate value_lists
candidate zone price = record {
  instance_type = instance_type;
  capacity_type = capacity_type_on_demand;
  price = price;
  zone = zone;
  subnet_id = "b";
}

abbrev candidates : List (Candidate value_lists)
candidates = candidate "z2" 7 ∷ candidate "z1" 10 ∷ []

build_create_candidates-IsSortedBy_example :
    IsSortedBy (candidate_less value_lists) (cheaper value_lists) candidates
unfolding build_create_candidates
build_create_candidates-IsSortedBy_example =
    build_create_candidates-IsSortedBy value_lists instance_types [] "b" candidates
      unit_prices-IsPriceOrder refl

abbrev short_candidate : String → Candidate value_lists
short_candidate zone = record {
  instance_type = record instance_type { name = "y" };
  capacity_type = "x";
  price = 7;
  zone = zone;
  subnet_id = "b";
}

abbrev short_candidates : List (Candidate value_lists)
short_candidates = short_candidate "z1" ∷ short_candidate "z2" ∷ []

abbrev sold_out : List Mark
sold_out = record { now = 3; capacity_type = "x"; instance_type = "y"; zone = "z1" } ∷ []

filter_run :
    filter_unavailable_candidates value_lists marks 9
      (mark_all marks sold_out (some (new_offering_availability_cache marks 100)))
      short_candidates
    ≡ (short_candidate "z2" ∷ [], 1)
unfolding filter_unavailable_candidates mark_all mark_unavailable new_offering_availability_cache
filter_run = refl

filter_unavailable_candidates-Board_example :
    let marked = mark_all marks sold_out (some (new_offering_availability_cache marks 100)) in
    let r = filter_unavailable_candidates value_lists marks 9 marked short_candidates in
    (r.0 ≡ open_candidates value_lists 9 (close_all 100 sold_out all_open) short_candidates)
    × (length r.0 + r.1 ≡ length short_candidates)
filter_unavailable_candidates-Board_example =
    filter_unavailable_candidates-Board value_lists marks 100 9 sold_out short_candidates
      ((((λ e. cc), tt), ((λ e. cc), tt)), tt)
      ((((λ e. cc), tt), ((λ e. cc), tt)), ((((λ e. cc), tt), ((λ e. cc), tt)), tt))

abbrev spec_for : Candidate value_lists → Result NodeSpec
unfolding node_spec_for_candidate
spec_for c =
    node_spec_for_candidate thousandths node_class claim [] c.instance_type.name c.zone c.subnet_id
      "HCE OS 2.0"

try_candidates-Outcome_example :
    let r = try_candidates value_lists api marks "cluster" spec_for none candidates session in
    Returned value_lists api marks "cluster" spec_for candidates r
    ⊎ Exhausted value_lists api marks "cluster" spec_for none session 1 100 candidates r
try_candidates-Outcome_example =
    try_candidates-Outcome value_lists api marks "cluster" spec_for (candidate "z2" 7)
      (candidate "z1" 10 ∷ []) session unmarked refl

abbrev no_launch : System listings counts base
no_launch = record { provider = idle; held = [] }

create-IsBalanced_example : IsBalanced listings counts base (record no_launch {
  provider =
      (create value_lists api marks thousandths listings counts "cluster" node_class claim []
        instance_types
        (record { session = session; provider = idle })).1.provider;
})
unfolding create parse_quantity_as_milli_value parse_quantity_as_binary_unit_value parse_pid_value
create-IsBalanced_example =
    create-IsBalanced value_lists listings counts base base-IsInt32 api marks thousandths no_launch
      "cluster" node_class claim [] instance_types session
      (idle-IsBalanced listings counts value_lists base base-IsInt32 idle refl) (refl, (refl, tt))
      (refl, (refl, tt)) (λ id. ground arith) (refl, (refl, tt))

abbrev cce_nodes : List CceNode
cce_nodes =
    record { uid = some "node-1"; spec = none; server_id = none }
    ∷ record { uid = none; spec = none; server_id = some "server-2" }
    ∷ []

listed_instances_run :
    listed_instances cce_nodes ≡ map instance_from_cce_node_parts (keep_if has_uid cce_nodes)
listed_instances_run = listed_instances-keep_if cce_nodes

abbrev node_spec : NodeSpec
node_spec = record {
  flavor = "c7.large.2";
  az = "z1";
  os = some "HCE OS 2.0";
  count = 1;
  root_volume = to_cce_volume spec.block_device_mappings.root;
  data_volumes = resolve_data_volumes spec.block_device_mappings "SSD";
  storage = resolve_storage spec.block_device_mappings "SSD";
  login = resolve_login (some spec.login);
  runtime = none;
  extend_param = some params;
  ecs_group_id = none;
  offload_node = true;
  subnet_id = "b";
  taints = to_cce_taints claim.startup_taints claim.taints;
  k8s_tags = ("karpenter.k8s.huawei/nodeclaim-uid", "claim-1") ∷ [];
}

abbrev created : Instance
created = record {
  node_id = "node-1";
  server_id = "server-1";
  flavor = "c7.large.2";
  zone = "z1";
  subnet_id = "";
}

shown-instance_of_example :
    shown (
      ok (
        some (record {
          uid = some "node-1";
          spec = some (record { flavor = "c7.large.2"; az = "z1"; primary_subnet_id = some "b" });
          server_id = some "server-1";
        })))
    ≡ ok (record created { subnet_id = "b" })
unfolding node_spec_for_candidate instance_of parse_quantity_as_milli_value
    parse_quantity_as_binary_unit_value parse_pid_value
shown-instance_of_example =
    shown-instance_of thousandths node_class claim [] "c7.large.2" "z1" "b" "HCE OS 2.0" "node-1"
      (some (record { server_id = some "server-1" })) node_spec created refl refl
