-- ===== src/InstanceType/Allocatable.antt =====
-- What the instance types of pkg/providers/instancetype/types.go leave to pods, and what of a node
-- class they depend on.
use karpenter_provider_huawe.Base.{
  ℕ, ◌+◌, ◌*◌, ◌^◌, ◌≤◌, ◌<◌, ◌≡◌, refl, sym, ◌∙◌, ap, String, List, [], ◌∷◌, Option, none, some,
  none_ne_some, arith,
}
use mathlib.Core.Option
use mathlib.Core.Option.{some_inj}
use karpenter_provider_huawe.Base.Int.{ℤ}
use karpenter_provider_huawe.Base.Maps.{Map, lookup, insert}
use karpenter_provider_huawe.Apis.{BlockDeviceMappings, CceNodeClassSpec, normalized_runtime_type}
use karpenter_provider_huawe.Ext.Ecs.{Flavor}
use karpenter_provider_huawe.Ext.Float32.{Float32}
use karpenter_provider_huawe.Ext.Scheduling.{Scheduling, InstanceType, Amount, Overhead, mebibytes}
use karpenter_provider_huawe.Instance.Kubelet.{Quantities}
use karpenter_provider_huawe.InstanceType.Storage.{ephemeral_storage}
use karpenter_provider_huawe.InstanceType.Memory.{
  system_reserved_memory_mib, kube_reserved_memory_mib, reserved-lt-memory,
}
use karpenter_provider_huawe.InstanceType.Overhead.{
  resource_memory, with_cpu, assign, kube_reserved_resources, system_reserved_resources,
  eviction_threshold, thresholds,
}
use karpenter_provider_huawe.InstanceType.Reserve.{HasOneEach, assign-chosen}
use karpenter_provider_huawe.InstanceType.Resolve.{
  CacheKeyInput, cache_key_input, cache_key, memory, resolve, new_instance_type, overhead_of,
  overhead_with, with_overhead, kubelet_or_empty,
}

overhead_of-some :
    (a b c : Option (Map Amount)) (v : Overhead)
    → overhead_of a b c ≡ some v
    → (a ≡ some v.kube_reserved) × (b ≡ some v.system_reserved) × (c ≡ some v.eviction_threshold)
overhead_of-some none b c v h = absurd (none_ne_some h)
overhead_of-some (some k) none c v h = absurd (none_ne_some h)
overhead_of-some (some k) (some s) none v h = absurd (none_ne_some h)
overhead_of-some (some k) (some s) (some t) v h = (
  ap (λ o. Option.map (λ (w : Overhead). w.kube_reserved) o) h,
  ap (λ o. Option.map (λ (w : Overhead). w.system_reserved) o) h,
  ap (λ o. Option.map (λ (w : Overhead). w.eviction_threshold) o) h,
)

-- Two inputs that the hash takes for the same. It reads a list as a set, in which neither the order
-- nor every repetition counts, so nothing is said of the volumes for users.
pub record Alike (a b : CacheKeyInput) : Type 0 where
  pub kubelet : a.kubelet ≡ b.kubelet
  pub runtime_type : a.runtime_type ≡ b.runtime_type
  pub k8s : a.block_device_mappings.k8s ≡ b.block_device_mappings.k8s
  pub root : a.block_device_mappings.root ≡ b.block_device_mappings.root

ephemeral_storage-k8s :
    (m n : BlockDeviceMappings) → m.k8s ≡ n.k8s → ephemeral_storage m ≡ ephemeral_storage n
unfolding ephemeral_storage
ephemeral_storage-k8s m n e = rw e refl

-- The memory that is reserved and the threshold of eviction leave some memory.
pub record Allocatable (S : Scheduling) (it : InstanceType S) : Type 0 where
  pub kube : ℕ
  pub system : ℕ
  pub eviction : ℕ
  pub for_kube : lookup resource_memory it.overhead.kube_reserved ≡ some (mebibytes kube)
  pub for_system : lookup resource_memory it.overhead.system_reserved ≡ some (mebibytes system)
  pub at_eviction :
      lookup resource_memory it.overhead.eviction_threshold ≡ some (mebibytes eviction)
  pub left : (kube + system + eviction) * 2 ^ 20 < it.memory

module _ (S : Scheduling) (Q : Quantities) (F : Float32) where
  module _ (m n : BlockDeviceMappings) (e : m.k8s ≡ n.k8s) where
    overhead_with-k8s :
        (info : Flavor) (runtime_type : String) (kube system : Map String)
        (cpus : Option Q.Quantity)
        → overhead_with Q F info runtime_type m kube system cpus
          ≡ overhead_with Q F info runtime_type n kube system cpus
    unfolding overhead_with
    overhead_with-k8s info runtime_type kube system none = refl
    overhead_with-k8s info runtime_type kube system (some cpus) =
        rw (ephemeral_storage-k8s m n e) refl

    with_overhead-k8s :
        (region : String) (info : Flavor) (zones : List String) (max_pods : Option ℤ)
        (o : Option Overhead)
        → with_overhead S Q F region info zones max_pods m o
          ≡ with_overhead S Q F region info zones max_pods n o
    unfolding with_overhead
    with_overhead-k8s region info zones max_pods none = refl
    with_overhead-k8s region info zones max_pods (some o) = rw (ephemeral_storage-k8s m n e) refl

    new_instance_type-k8s :
        (info : Flavor) (region : String) (zones : List String) (runtime_type : String)
        (max_pods : Option ℤ) (kube system : Map String)
        → new_instance_type S Q F info region zones runtime_type max_pods m kube system
          ≡ new_instance_type S Q F info region zones runtime_type max_pods n kube system
    unfolding new_instance_type
    new_instance_type-k8s info region zones runtime_type max_pods kube system =
        with_overhead-k8s region info zones max_pods _
        ∙ ap (with_overhead S Q F region info zones max_pods n)
            (overhead_with-k8s info runtime_type kube system (Q.parse info.vcpus))

  -- Node classes with the same cache key have the same instance types, whatever the flavor and its
  -- zones. The hash is one that does not collide on the two classes, but for the volumes for users.
  pub cache_key-resolve :
      (digest : CacheKeyInput → String) (a b : CceNodeClassSpec)
      → (digest (cache_key_input a) ≡ digest (cache_key_input b)
          → Alike (cache_key_input a) (cache_key_input b))
      → cache_key digest a ≡ cache_key digest b
      → (region : String) (info : Flavor) (zones : List String)
      → resolve S Q F region info zones a ≡ resolve S Q F region info zones b
  unfolding cache_key resolve
  cache_key-resolve digest a b no_collision same region info zones =
      let alike = no_collision same in
      let kubelet = kubelet_or_empty a.kubelet in
      new_instance_type-k8s a.block_device_mappings b.block_device_mappings alike.k8s info region
        zones (normalized_runtime_type a.runtime_configuration) kubelet.max_pods
        kubelet.kube_reserved kubelet.system_reserved
      ∙ cc (alike.kubelet, alike.runtime_type)

  with_overhead-some :
      (region : String) (info : Flavor) (zones : List String) (max_pods : Option ℤ)
      (m : BlockDeviceMappings) (o : Option Overhead) (it : InstanceType S)
      → with_overhead S Q F region info zones max_pods m o ≡ some it
      → (o ≡ some it.overhead) × (it.memory ≡ memory info)
  unfolding with_overhead
  with_overhead-some region info zones max_pods m none it h = absurd (none_ne_some h)
  with_overhead-some region info zones max_pods m (some o) it h = (
    ap (λ x. Option.map (λ (t : InstanceType S). t.overhead) x) h,
    sym (some_inj.0 (ap (λ x. Option.map (λ (t : InstanceType S). t.memory) x) h)),
  )

  -- The entries of memory that the program computes, none of which the user replaces.
  cpu_kept :
      (o : Option ℕ) (a : Amount)
      → lookup resource_memory (with_cpu o ((resource_memory, a) ∷ [])) ≡ some a
  unfolding lookup insert
  cpu_kept none a = refl
  cpu_kept (some n) a = refl

  memory_kept :
      (user : Map String) (computed amounts : Map Amount)
      → HasOneEach user
      → lookup resource_memory user ≡ none
      → assign Q user computed ≡ some amounts
      → lookup resource_memory amounts ≡ lookup resource_memory computed
  memory_kept user computed amounts one free h =
      rw free at (assign-chosen Q user computed amounts resource_memory one h)

  threshold-memory :
      (o : Option Amount) (t : Map Amount)
      → thresholds Q F o ≡ some t
      → lookup resource_memory t ≡ some (mebibytes 100)
  unfolding lookup
  threshold-memory none t h = absurd (none_ne_some h)
  threshold-memory (some a) t h = ap (lookup resource_memory) (sym (some_inj.0 h))

  overhead_with-memory :
      (info : Flavor) (runtime_type : String) (m : BlockDeviceMappings) (kube system : Map String)
      (cpus : Option Q.Quantity) (v : Overhead)
      → HasOneEach kube
      → HasOneEach system
      → lookup resource_memory kube ≡ none
      → lookup resource_memory system ≡ none
      → overhead_with Q F info runtime_type m kube system cpus ≡ some v
      → (lookup resource_memory v.kube_reserved
          ≡ some (mebibytes (kube_reserved_memory_mib info.ram runtime_type)))
        × (lookup resource_memory v.system_reserved
            ≡ some (mebibytes (system_reserved_memory_mib info.ram)))
        × (lookup resource_memory v.eviction_threshold ≡ some (mebibytes 100))
  unfolding overhead_with kube_reserved_resources system_reserved_resources eviction_threshold
  overhead_with-memory info runtime_type m kube system none v one two free free' h =
      absurd (none_ne_some h)
  overhead_with-memory info runtime_type m kube system (some cpus) v one two free free' h =
      let (k, s, t) = overhead_of-some _ _ _ v h in
      (
        memory_kept kube _ v.kube_reserved one free k ∙ cpu_kept _ _,
        memory_kept system _ v.system_reserved two free' s ∙ cpu_kept none _,
        threshold-memory _ v.eviction_threshold t,
      )

  -- An instance type with at least 2 GiB, for a node class that reserves no memory of its own, has
  -- memory left for pods when what is reserved and the threshold of eviction are taken off.
  pub resolve-Allocatable :
      (region : String) (info : Flavor) (zones : List String) (spec : CceNodeClassSpec)
      (it : InstanceType S)
      → 2048 ≤ info.ram
      → let kubelet = kubelet_or_empty spec.kubelet in
        HasOneEach kubelet.kube_reserved
        → HasOneEach kubelet.system_reserved
        → lookup resource_memory kubelet.kube_reserved ≡ none
        → lookup resource_memory kubelet.system_reserved ≡ none
        → resolve S Q F region info zones spec ≡ some it
        → Allocatable S it
  unfolding resolve new_instance_type memory
  resolve-Allocatable region info zones spec it enough one two free free' h =
      let (with_it, bytes) =
        with_overhead-some region info zones (kubelet_or_empty spec.kubelet).max_pods
          spec.block_device_mappings _ it h in
      let runtime_type = normalized_runtime_type spec.runtime_configuration in
      let (k, s, t) =
        overhead_with-memory info runtime_type spec.block_device_mappings _ _ (Q.parse info.vcpus)
          it.overhead one two free free' with_it in
      record {
        kube = kube_reserved_memory_mib info.ram runtime_type;
        system = system_reserved_memory_mib info.ram;
        eviction = 100;
        for_kube = k;
        for_system = s;
        at_eviction = t;
        left = omega (arith, bytes, reserved-lt-memory info.ram runtime_type enough);
      }
