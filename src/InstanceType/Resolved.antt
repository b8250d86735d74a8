-- ===== src/InstanceType/Resolved.antt =====
-- When Resolve of pkg/providers/instancetype/types.go panics, what a node is left with, and that the
-- cache key tells apart the node classes that Resolve tells apart.
use karpenter_provider_huawe.Base.{
  ◌≡◌, refl, ◌∙◌, String, Bool, true, false, List, [], ◌∷◌, Option, none, some, ◌&&◌, is_set, ok,
  >>=-eq-ok, arith, inl, inr, Option-cases,
}
use karpenter_provider_huawe.Base.Int.{ℤ}
use karpenter_provider_huawe.Base.Maps.{Map}
use karpenter_provider_huawe.Apis.{KubeletConfiguration, BlockDeviceMappings, CceNodeClassSpec}
use karpenter_provider_huawe.Ext.Ecs.{Flavor}
use karpenter_provider_huawe.Ext.Float32.{Float32}
use karpenter_provider_huawe.Ext.Scheduling.{Scheduling, InstanceType, Amount, Overhead}
use karpenter_provider_huawe.Instance.Kubelet.{
  Quantities, ReservedValues, no_values, parse_int32, reserve_entry, reserve_entries,
  parse_reserved_values, parse_quantity_as_milli_value, parse_quantity_as_binary_unit_value,
  parse_pid_value, validate_kubelet_for_create_node,
}
use karpenter_provider_huawe.Instance.Kubelet.Reserved.{validated}
use karpenter_provider_huawe.InstanceType.Storage.{ephemeral_storage}
use karpenter_provider_huawe.InstanceType.Overhead.{
  assign, must_parse, must_parse_percentage, eviction_threshold, compute_eviction_signal,
  kube_reserved_resources, system_reserved_resources,
}
use karpenter_provider_huawe.InstanceType.Resolve.{
  resolve, new_instance_type, overhead_of, overhead_with, with_overhead, kubelet_or_empty,
}

-- Whether every value is a quantity.
abbrev pub all_parse : Quantities → Map String → Bool
all_parse Q [] = true
all_parse Q ((key, text) ∷ rest) = is_set (Q.parse text) && all_parse Q rest

module _ (Q : Quantities) where
  assign-parses :
      (user : Map String) (computed : Map Amount)
      → is_set (assign Q user computed) ≡ all_parse Q user
  unfolding assign must_parse
  assign-parses [] computed = refl
  assign-parses ((key, text) ∷ user) computed = elim (Option-cases (Q.parse text)) [
    | inl bad ↦ rw bad refl
    | inr (q, good) ↦ rw good (assign-parses user _)
  ]

  module _ (F : Float32) (ten : is_set (F.parse "10") ≡ true) where
    eviction_threshold-IsSet : (z : ℤ) → is_set (eviction_threshold Q F z) ≡ true
    unfolding eviction_threshold compute_eviction_signal must_parse_percentage
    eviction_threshold-IsSet z = elim (Option-cases (F.parse "10")) [
      | inl bad ↦ let impossible : false ≡ true = rw bad at ten in absurd (cc impossible)
      | inr (p, good) ↦ rw good refl
    ]

    overhead_of-IsSet :
        (kube system threshold : Option (Map Amount))
        → is_set threshold ≡ true
        → is_set (overhead_of kube system threshold) ≡ (is_set kube && is_set system)
    overhead_of-IsSet none system threshold h = refl
    overhead_of-IsSet (some k) none threshold h = refl
    overhead_of-IsSet (some k) (some s) none h = cc
    overhead_of-IsSet (some k) (some s) (some t) h = refl

    overhead_with-parses :
        (info : Flavor) (runtime_type : String) (m : BlockDeviceMappings) (kube system : Map String)
        (cpus : Option Q.Quantity)
        → is_set (overhead_with Q F info runtime_type m kube system cpus)
          ≡ (is_set cpus && (all_parse Q kube && all_parse Q system))
    unfolding overhead_with kube_reserved_resources system_reserved_resources
    overhead_with-parses info runtime_type m kube system none = refl
    overhead_with-parses info runtime_type m kube system (some cpus) =
        overhead_of-IsSet
          (kube_reserved_resources Q (Q.milli_value cpus) info.ram runtime_type kube)
          (system_reserved_resources Q info.ram system)
          (eviction_threshold Q F (ephemeral_storage m)) (eviction_threshold-IsSet _)
        ∙ cc (assign-parses kube _, assign-parses system _)

    module _ (S : Scheduling) where
      with_overhead-IsSet :
          (region : String) (info : Flavor) (zones : List String) (max_pods : Option ℤ)
          (m : BlockDeviceMappings) (o : Option Overhead)
          → is_set (with_overhead S Q F region info zones max_pods m o) ≡ is_set o
      unfolding with_overhead
      with_overhead-IsSet region info zones max_pods m none = refl
      with_overhead-IsSet region info zones max_pods m (some o) = refl

      -- An instance type comes of a flavor and a node class, and no panic, exactly if the flavor's
      -- number of CPUs and every value that the class reserves is a quantity.
      pub resolve-parses :
          (region : String) (info : Flavor) (zones : List String) (spec : CceNodeClassSpec)
          → is_set (resolve S Q F region info zones spec) ≡ (
              is_set (Q.parse info.vcpus)
              && (all_parse Q (kubelet_or_empty spec.kubelet).kube_reserved
                  && all_parse Q (kubelet_or_empty spec.kubelet).system_reserved))
      unfolding resolve new_instance_type
      resolve-parses region info zones spec =
          with_overhead-IsSet region info zones (kubelet_or_empty spec.kubelet).max_pods
            spec.block_device_mappings _
          ∙ overhead_with-parses info _ _ _ _ (Q.parse info.vcpus)

  -- What Kubernetes documents of quantities: an integer is one.
  abbrev pub IntegersParse : Type 0
  IntegersParse = (t : String) (v : ℤ) → parse_int32 t ≡ some v → is_set (Q.parse t) ≡ true

  reserve_entry-parses :
      (key text : String) (out w : ReservedValues)
      → IntegersParse
      → reserve_entry Q key text out ≡ ok w
      → is_set (Q.parse text) ≡ true
  unfolding reserve_entry parse_quantity_as_milli_value parse_quantity_as_binary_unit_value
      parse_pid_value
  reserve_entry-parses key text out w integers h = elim (Option-cases (Q.parse text)) [
    | inr (q, good) ↦ rw good refl
    | inl bad ↦ elim (Option-cases (parse_int32 text)) [
      | inr (v, good) ↦ integers text v good
      | inl no_integer ↦ ground (arith, h, bad, no_integer)
    ]
  ]

  reserve_entries-parse :
      (values : Map String) (out w : ReservedValues)
      → IntegersParse
      → reserve_entries Q values out ≡ ok w
      → all_parse Q values ≡ true
  unfolding reserve_entries
  reserve_entries-parse [] out w integers h = refl
  reserve_entries-parse ((key, text) ∷ values) out w integers h =
      let (v, one, rest) = >>=-eq-ok (reserve_entry Q key text out) (reserve_entries Q values) h in
      rw (reserve_entry-parses key text out v integers one)
        (reserve_entries-parse values v w integers rest)

  validate_kubelet-parses :
      (k : Option KubeletConfiguration)
      → IntegersParse
      → validate_kubelet_for_create_node Q k ≡ ok (tt {0})
      → (all_parse Q (kubelet_or_empty k).kube_reserved
          && all_parse Q (kubelet_or_empty k).system_reserved)
        ≡ true
  unfolding validate_kubelet_for_create_node parse_reserved_values
  validate_kubelet-parses none integers h = refl
  validate_kubelet-parses (some k) integers h =
      let (v, w, m, a, b) = validated Q _ _ _ h in
      let kube = reserve_entries-parse k.kube_reserved no_values v integers a in
      let system = reserve_entries-parse k.system_reserved no_values w integers b in rw kube system

  -- A node class that passes the check of its kubelet settings never makes Resolve panic, on a
  -- flavor whose number of CPUs is a quantity.
  pub validate_kubelet_for_create_node-resolve :
      (F : Float32) (S : Scheduling) (region : String) (info : Flavor) (zones : List String)
      (spec : CceNodeClassSpec)
      → IntegersParse
      → is_set (F.parse "10") ≡ true
      → is_set (Q.parse info.vcpus) ≡ true
      → validate_kubelet_for_create_node Q spec.kubelet ≡ ok (tt {0})
      → (it : InstanceType S) × (resolve S Q F region info zones spec ≡ some it)
  validate_kubelet_for_create_node-resolve F S region info zones spec integers ten cpus h =
      let all = validate_kubelet-parses spec.kubelet integers h in
      elim (Option-cases (resolve S Q F region info zones spec)) [
        | inr found ↦ found
        | inl bad ↦
            let same = rw (bad, cpus, all) at (resolve-parses F ten S region info zones spec) in
            absurd (cc same)
      ]
