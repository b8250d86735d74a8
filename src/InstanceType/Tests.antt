-- ===== src/InstanceType/Tests.antt =====
-- The theorems on the ephemeral storage of a node, at concrete volumes, and the values that
-- pkg/providers/instancetype/types_test.go expects.
use karpenter_provider_huawe.Base.{
  is_set, true, ◌∷◌, ◌&&◌, ℕ, ◌*◌, ◌≤◌, ◌+◌, ◌<◌, ◌≡◌, refl, [], none, some, arith,
}
use karpenter_provider_huawe.Base.Int.{pos}
use karpenter_provider_huawe.Apis.{
  BlockDevice, BlockDeviceMappings, validate_for_create_node, CceNodeClassSpec,
}
use karpenter_provider_huawe.InstanceType.Storage.{
  bytes_per_gib, sparse_super_group_copies, count_powers, ext4_filesystem_size_bytes,
  managed_size_gib, ephemeral_storage, kubernetes_lv_size, ext4_overhead_blocks,
}
use karpenter_provider_huawe.Ext.Ecs.{Flavor}
use karpenter_provider_huawe.InstanceType.Resolve.{pods, parse_positive_int64}
use karpenter_provider_huawe.Apis.Samples.{spec}
use karpenter_provider_huawe.Subnet.Samples.{instance_type}
use karpenter_provider_huawe.Base.Maps.{Map, lookup}
use karpenter_provider_huawe.Instance.NodeSpec.{resolve_login}
use karpenter_provider_huawe.Ext.Samples.{value_lists}
use karpenter_provider_huawe.Ext.Scheduling.{InstanceType, Amount, mebibytes, parsed}
use karpenter_provider_huawe.Instance.Kubelet.{
  parse_int32, validate_kubelet_for_create_node, parse_quantity_as_milli_value,
  parse_quantity_as_binary_unit_value, parse_pid_value,
}
use karpenter_provider_huawe.InstanceType.Samples.{
  with_integers, with_integers-IntegersParse, whole_percents, flavor,
}
use karpenter_provider_huawe.InstanceType.Overhead.{
  kube_reserved_cpu, assign, kube_reserved_resources, system_reserved_resources, eviction_threshold,
}
use karpenter_provider_huawe.InstanceType.Memory.{system_reserved_memory_mib}
use karpenter_provider_huawe.InstanceType.Reserve.{
  tiers, chosen, kube_reserved_cpu-tiers, kube_computed, system_computed, reserved_resources-chosen,
}
use karpenter_provider_huawe.InstanceType.Resolve.{cache_key, resolve, kubelet_or_empty}
use karpenter_provider_huawe.InstanceType.Resolved.{
  all_parse, resolve-parses, validate_kubelet_for_create_node-resolve,
}
use karpenter_provider_huawe.InstanceType.Allocatable.{
  Allocatable, cache_key-resolve, resolve-Allocatable,
}
use karpenter_provider_huawe.InstanceType.Validated.{validate_for_create_node-usable}
use karpenter_provider_huawe.InstanceType.Copies.{sparse_super_group_copies-le, count_powers_fuel}
use karpenter_provider_huawe.InstanceType.Capacity.{
  ext4_filesystem_size_bytes_bounds, ephemeral_storage_bounds,
}

-- A flavor with 64 GiB whose quota of supplementary network interfaces is less than its pods.
abbrev quota_flavor : Flavor
quota_flavor = record {
  id = "c7.large.2";
  name = "c7.large.2";
  vcpus = "2";
  ram = 65536;
  os_extra_specs = some (record {
    cond_operation_status = none;
    cond_operation_az = none;
    ecs_instance_architecture = some "arm64";
    quota_sub_network_interface_max_num = some " 32 ";
  });
}

pods_run : pods quota_flavor none ≡ pos 32
unfolding pods
pods_run = refl

quota_without_number : parse_positive_int64 (some "3x") ≡ none
unfolding parse_positive_int64
quota_without_number = refl

abbrev disk : ℕ → BlockDevice
disk n = record { volume_size = pos n; volume_type = "SSD"; iops = none; throughput = none }

abbrev default_mappings : BlockDeviceMappings
default_mappings = record { k8s = none; root = disk 40; users = [] }

abbrev mappings : ℕ → BlockDeviceMappings
mappings n = record { k8s = some (disk n); root = disk 40; users = [] }

default_volume : ephemeral_storage default_mappings ≡ pos (10214676 * 1024)
unfolding ephemeral_storage ext4_filesystem_size_bytes kubernetes_lv_size ext4_overhead_blocks
default_volume = refl

volume_of_120 : ephemeral_storage (mappings 120) ≡ pos (12274824 * 1024)
unfolding ephemeral_storage ext4_filesystem_size_bytes kubernetes_lv_size ext4_overhead_blocks
volume_of_120 = refl

volume_of_450 : ephemeral_storage (mappings 450) ≡ pos (46125908 * 1024)
unfolding ephemeral_storage ext4_filesystem_size_bytes kubernetes_lv_size ext4_overhead_blocks
volume_of_450 = refl

copies_of_80 : sparse_super_group_copies 80 ≤ 62
copies_of_80 = sparse_super_group_copies-le 80 (omega arith)

powers_of_3 : count_powers 80 3 80 1 1 ≡ count_powers 100 3 80 1 1
powers_of_3 =
    count_powers_fuel 80 100 3 80 1 1 (omega arith) (omega arith) (omega arith) (omega arith)

file_system_of_10 :
    (size : ℕ) × (ext4_filesystem_size_bytes (pos (10 * bytes_per_gib)) ≡ pos size)
    × (10 * bytes_per_gib ≤ 2 * size + 4096)
    × (size ≤ 10 * bytes_per_gib)
file_system_of_10 =
    ext4_filesystem_size_bytes_bounds (10 * bytes_per_gib) (omega arith) (omega arith)

ephemeral_storage_bounds_example :
    (size : ℕ) × (ephemeral_storage default_mappings ≡ pos size)
    × (0 < size)
    × (managed_size_gib default_mappings.k8s * bytes_per_gib ≤ 30 * size)
    × (10 * size ≤ managed_size_gib default_mappings.k8s * bytes_per_gib)
unfolding managed_size_gib
ephemeral_storage_bounds_example =
    ephemeral_storage_bounds default_mappings (omega arith) (omega arith)

usable_spec_run :
    (is_set (resolve_login (some spec.login)) ≡ true)
    × (20 ≤ managed_size_gib spec.block_device_mappings.k8s)
unfolding validate_for_create_node
usable_spec_run = validate_for_create_node-usable spec refl

kube_reserved_cpu-tiers_example : kube_reserved_cpu (pos 5000) ≡ some (tiers 5000)
kube_reserved_cpu-tiers_example = kube_reserved_cpu-tiers 5000

abbrev computed : Map Amount
computed = ("memory", mebibytes 600) ∷ []

abbrev with_user : Map Amount
with_user = ("memory", parsed "512Mi") ∷ ("cpu", parsed "100m") ∷ []

assign_run :
    assign with_integers (kubelet_or_empty spec.kubelet).kube_reserved computed ≡ some with_user
unfolding assign parse_int32
assign_run = refl

kube_run :
    kube_reserved_resources with_integers
      (pos 2000)
      4096
      "docker"
      (kubelet_or_empty spec.kubelet).kube_reserved
    ≡ some with_user
unfolding kube_reserved_resources parse_int32
kube_run = refl

abbrev with_pids : Map Amount
with_pids = ("memory", mebibytes (system_reserved_memory_mib 4096)) ∷ ("pid", parsed "+1000") ∷ []

system_run :
    system_reserved_resources with_integers 4096 (kubelet_or_empty spec.kubelet).system_reserved
    ≡ some with_pids
unfolding system_reserved_resources system_reserved_memory_mib parse_int32
system_run = refl

reserved_resources-chosen_example :
    (lookup "memory" with_user
      ≡ chosen
          (lookup "memory" (kubelet_or_empty spec.kubelet).kube_reserved)
          (kube_computed (pos 2000) 4096 "docker" "memory"))
    × (lookup "memory" with_pids
        ≡ chosen
            (lookup "memory" (kubelet_or_empty spec.kubelet).system_reserved)
            (system_computed 4096 "memory"))
unfolding lookup
reserved_resources-chosen_example =
    reserved_resources-chosen with_integers (pos 2000) 4096 "docker"
      (kubelet_or_empty spec.kubelet).kube_reserved (kubelet_or_empty spec.kubelet).system_reserved
      with_user with_pids "memory" (refl, (refl, tt)) (refl, tt) kube_run system_run

-- A class that reserves a number of CPUs that is no quantity.
abbrev unreadable : CceNodeClassSpec
unreadable = record spec {
  kubelet =
      some (record { max_pods = none; system_reserved = []; kube_reserved = ("cpu", "abc") ∷ [] });
}

resolve-parses_example :
    is_set (resolve value_lists with_integers whole_percents "r" flavor [] unreadable) ≡ (
      is_set (with_integers.parse flavor.vcpus)
      && (all_parse with_integers (kubelet_or_empty unreadable.kubelet).kube_reserved
          && all_parse with_integers (kubelet_or_empty unreadable.kubelet).system_reserved))
resolve-parses_example =
    resolve-parses with_integers whole_percents refl value_lists "r" flavor [] unreadable

unreadable_panics : resolve value_lists with_integers whole_percents "r" flavor [] unreadable ≡ none
unfolding resolve parse_int32 kube_reserved_resources
unreadable_panics = refl

validate_kubelet_for_create_node-resolve_example :
    (it : InstanceType value_lists) × (resolve value_lists with_integers whole_percents "r" flavor
        [] spec
      ≡ some it)
unfolding parse_int32 validate_kubelet_for_create_node parse_quantity_as_milli_value
    parse_quantity_as_binary_unit_value parse_pid_value
validate_kubelet_for_create_node-resolve_example =
    validate_kubelet_for_create_node-resolve with_integers whole_percents value_lists "r" flavor []
      spec with_integers-IntegersParse refl refl refl

-- The same class with its volumes for users in another order.
abbrev two_users : BlockDevice → BlockDevice → CceNodeClassSpec
two_users a b = record spec {
  block_device_mappings = record { k8s = some (disk 120); root = disk 40; users = a ∷ b ∷ [] };
}

cache_key-resolve_example :
    resolve value_lists with_integers whole_percents "r" flavor [] (two_users (disk 10) (disk 20))
    ≡ resolve value_lists with_integers whole_percents "r" flavor [] (two_users (disk 20) (disk 10))
unfolding cache_key
cache_key-resolve_example =
    cache_key-resolve value_lists with_integers whole_percents (λ i. i.runtime_type)
      (two_users (disk 10) (disk 20)) (two_users (disk 20) (disk 10))
      (λ same. record { kubelet = refl; runtime_type = refl; k8s = refl; root = refl }) refl "r"
      flavor []

abbrev plain_spec : CceNodeClassSpec
plain_spec = record spec { kubelet = none }

plain_type : InstanceType value_lists
unfolding resolve parse_int32
plain_type = elim (resolve value_lists with_integers whole_percents "r" flavor [] plain_spec) [
  | none ↦ instance_type
  | some it ↦ it
]

resolve-Allocatable_example : Allocatable value_lists plain_type
unfolding plain_type parse_int32 resolve lookup kube_reserved_resources system_reserved_resources
    eviction_threshold
resolve-Allocatable_example =
    resolve-Allocatable value_lists with_integers whole_percents "r" flavor [] plain_spec plain_type
      (omega arith) tt tt refl refl refl
