-- ===== src/InstanceType/Resolve.antt =====
-- DefaultResolver.Resolve and NewInstanceType of pkg/providers/instancetype/types.go: the
-- requirements of an instance type, its capacities and its overhead, and what the cache of instance
-- types is asked for.
use Prim.Native.Char.{code}
use karpenter_provider_huawe.Base.{
  ℕ, ◌+◌, ◌-◌, ◌*◌, ◌^◌, String, List, [], ◌∷◌, Option, none, some, ◌==◌, ◌&&◌, if◌then◌else◌, leb,
  ltb, eqb, is_empty,
}
use karpenter_provider_huawe.Base.Int.{ℤ, pos}
use karpenter_provider_huawe.Base.Decimal.{decimal}
use karpenter_provider_huawe.Base.Strings.{trim_space}
use karpenter_provider_huawe.Base.Maps.{Map}
use karpenter_provider_huawe.Apis.{
  KubeletConfiguration, BlockDeviceMappings, CceNodeClassSpec, normalized_runtime_type,
}
use karpenter_provider_huawe.Ext.Float32.{Float32}
use karpenter_provider_huawe.Instance.Kubelet.{Quantities}
use karpenter_provider_huawe.InstanceType.Storage.{ephemeral_storage}
use karpenter_provider_huawe.InstanceType.Overhead.{
  kube_reserved_resources, system_reserved_resources, eviction_threshold,
}
use karpenter_provider_huawe.Ext.Ecs.{Flavor, FlavorExtraSpec}
use karpenter_provider_huawe.Ext.Scheduling.{
  Scheduling, InstanceType, Amount, Overhead, parsed, capacity_type_label_key,
  capacity_type_on_demand, label_topology_zone, label_instance_type_stable,
}
use karpenter_provider_huawe.InstanceType.Memory.{default_max_pods_by_memory_mib}

abbrev pub or_amd64 : Option String → String
or_amd64 none = "amd64"
or_amd64 (some architecture) = architecture

abbrev pub architecture_of : Option FlavorExtraSpec → String
architecture_of none = "amd64"
architecture_of (some specs) = or_amd64 specs.ecs_instance_architecture

unfoldable pub get_architecture : Flavor → String
get_architecture info = architecture_of info.os_extra_specs

-- The decimal digits of strconv.ParseInt after those read so far; `none` for another character.
unfoldable pub parse_digits : String → ℕ → Option ℕ
parse_digits String.[] read = some read
parse_digits (String.◌∷◌ c s) read =
    let rest = parse_digits s (read * 10 + (code c - b'0')) in
    if leb b'0' (code c) && leb (code c) b'9' then rest else none

-- Without a sign of plus; a text with a minus has no positive value.
abbrev pub unsigned : String → String
unsigned String.[] = String.[]
unsigned (String.◌∷◌ c s) = if eqb (code c) b'+' then s else String.◌∷◌ c s

abbrev pub if_positive_int64 : Option ℕ → Option ℕ
if_positive_int64 none = none
if_positive_int64 (some n) = if ltb 0 n && ltb n (2 ^ 63) then some n else none

unfoldable pub parse_positive_int64 : Option String → Option ℕ
unfolding parse_digits trim_space
parse_positive_int64 none = none
parse_positive_int64 (some v) =
    let digits = unsigned (trim_space v) in
    if digits == "" then none else if_positive_int64 (parse_digits digits 0)

abbrev pub at_most : Option ℕ → ℕ → ℕ
at_most none count = count
at_most (some cap) count = if ltb count cap then count else cap

abbrev pub max_pods_with : Option FlavorExtraSpec → ℕ → ℕ
unfolding parse_positive_int64
max_pods_with none count = count
max_pods_with (some specs) count =
    at_most (parse_positive_int64 specs.quota_sub_network_interface_max_num) count

unfoldable pub default_max_pods : Flavor → ℕ
unfolding default_max_pods_by_memory_mib max_pods_with
default_max_pods info = max_pods_with info.os_extra_specs (default_max_pods_by_memory_mib info.ram)

unfoldable pub pods : Flavor → Option ℤ → ℤ
unfolding default_max_pods
pods info (some max_pods) = max_pods
pods info none = pos (default_max_pods info)

-- memory, in bytes
unfoldable pub memory : Flavor → ℕ
memory info = info.ram * 2 ^ 20

-- KubeletConfiguration(), or no settings where it is nil.
abbrev pub kubelet_or_empty : Option KubeletConfiguration → KubeletConfiguration
kubelet_or_empty none = record { max_pods = none; system_reserved = []; kube_reserved = [] }
kubelet_or_empty (some k) = k

-- The values that the hash of the cache key is taken over.
pub record CacheKeyInput : Type 0 where
  pub kubelet : KubeletConfiguration
  pub runtime_type : String
  pub block_device_mappings : BlockDeviceMappings

abbrev pub cache_key_input : CceNodeClassSpec → CacheKeyInput
unfolding normalized_runtime_type
cache_key_input spec = record {
  kubelet = kubelet_or_empty spec.kubelet;
  runtime_type = normalized_runtime_type spec.runtime_configuration;
  block_device_mappings = spec.block_device_mappings;
}

-- CacheKey, with the hash as 16 hexadecimal digits.
unfoldable pub cache_key : (CacheKeyInput → String) → CceNodeClassSpec → String
unfolding cache_key_input
cache_key digest spec = digest (cache_key_input spec)

-- The keys that have the operator DoesNotExist.
abbrev pub absent_keys : List String
absent_keys =
    "node.kubernetes.io/windows-build" ∷ "karpenter.k8s.huawei/instance-network-bandwidth"
    ∷ "karpenter.k8s.huawei/instance-size" ∷ "karpenter.k8s.huawei/instance-gpu-name"
    ∷ "karpenter.k8s.huawei/instance-gpu-manufacturer" ∷ "karpenter.k8s.huawei/instance-gpu-count"
    ∷ "karpenter.k8s.huawei/instance-gpu-memory" ∷ []

abbrev pub overhead_of :
    Option (Map Amount) → Option (Map Amount) → Option (Map Amount) → Option Overhead
overhead_of none system threshold = none
overhead_of (some kube) none threshold = none
overhead_of (some kube) (some system) none = none
overhead_of (some kube) (some system) (some threshold) =
    some (record { kube_reserved = kube; system_reserved = system; eviction_threshold = threshold })

module _ (Q : Quantities) (F : Float32) where
  -- The overhead, with what is read of the flavor's number of CPUs.
  unfoldable pub overhead_with :
      Flavor
      → String
      → BlockDeviceMappings
      → Map String
      → Map String
      → Option Q.Quantity
      → Option Overhead
  overhead_with info runtime_type mappings kube_reserved system_reserved none = none
  overhead_with info runtime_type mappings kube_reserved system_reserved (some cpus) =
      overhead_of
        (kube_reserved_resources Q (Q.milli_value cpus) info.ram runtime_type kube_reserved)
        (system_reserved_resources Q info.ram system_reserved)
        (eviction_threshold Q F (ephemeral_storage mappings))

module _ (S : Scheduling) where
  unfoldable pub compute_requirements : Flavor → String → List String → S.Requirements
  unfolding get_architecture decimal
  compute_requirements info region zones =
      let requirements = S.add_absent absent_keys (
        S.new_in (
          (label_instance_type_stable, info.name ∷ [])
          ∷ ("kubernetes.io/arch", get_architecture info ∷ [])
          ∷ ("kubernetes.io/os", "linux" ∷ [])
          ∷ ("topology.kubernetes.io/region", region ∷ [])
          ∷ (capacity_type_label_key, capacity_type_on_demand ∷ [])
          ∷ ("karpenter.k8s.huawei/instance-cpu", info.vcpus ∷ [])
          ∷ ("karpenter.k8s.huawei/instance-memory", decimal info.ram ∷ [])
          ∷ [])) in
      if is_empty zones then requirements else S.add_in label_topology_zone zones requirements

  module _ (Q : Quantities) (F : Float32) where
    unfoldable pub with_overhead :
        String
        → Flavor
        → List String
        → Option ℤ
        → BlockDeviceMappings
        → Option Overhead
        → Option (InstanceType S)
    unfolding compute_requirements pods memory
    with_overhead region info zones max_pods mappings none = none
    with_overhead region info zones max_pods mappings (some overhead) = some (record {
      name = info.name;
      requirements = compute_requirements info region zones;
      offerings = [];
      cpu = parsed info.vcpus;
      pods = pods info max_pods;
      memory = memory info;
      ephemeral_storage = ephemeral_storage mappings;
      overhead = overhead;
    })

    -- NewInstanceType; `none` stands for a panic, on a text that is no quantity.
    unfoldable pub new_instance_type :
        Flavor
        → String
        → List String
        → String
        → Option ℤ
        → BlockDeviceMappings
        → Map String
        → Map String
        → Option (InstanceType S)
    unfolding with_overhead overhead_with
    new_instance_type info region zones runtime_type max_pods mappings kube_reserved
          system_reserved =
        with_overhead region info zones max_pods mappings (
          overhead_with Q F info runtime_type mappings kube_reserved system_reserved
            (Q.parse info.vcpus))

    -- Resolve, for the region of the resolver.
    unfoldable pub resolve :
        String → Flavor → List String → CceNodeClassSpec → Option (InstanceType S)
    unfolding new_instance_type normalized_runtime_type
    resolve region info zones spec =
        let kubelet = kubelet_or_empty spec.kubelet in
        new_instance_type info region zones (normalized_runtime_type spec.runtime_configuration)
          kubelet.max_pods spec.block_device_mappings kubelet.kube_reserved kubelet.system_reserved
