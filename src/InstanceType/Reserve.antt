-- ===== src/InstanceType/Reserve.antt =====
-- How much pkg/providers/instancetype/types.go reserves on a node, and what the settings of the
-- node class change in it.
use mathlib.Core.Option
use karpenter_provider_huawe.Base.{
  ℕ, ◌+◌, ◌-◌, ◌*◌, ◌/◌, ◌^◌, ◌≤◌, ◌≡◌, refl, sym, ◌∙◌, ap, subst, String, [], ◌∷◌, Option, none,
  some, ◌==◌, if◌then◌else◌, leb, arith, inl, inr, Bool-cases, Option-cases, none_ne_some, eq_iff,
}
use karpenter_provider_huawe.Base.Int.{ℤ, pos}
use karpenter_provider_huawe.Base.Maps.{Map, lookup, insert, lookup-insert}
use karpenter_provider_huawe.Ext.Scheduling.{Amount, parsed, mebibytes, milli}
use karpenter_provider_huawe.Instance.Kubelet.{Quantities}
use karpenter_provider_huawe.InstanceType.Memory.{
  system_reserved_memory_mib, kube_reserved_memory_mib,
}
use karpenter_provider_huawe.InstanceType.Overhead.{
  reserve_ranges, reserved_of_range, kube_reserved_cpu, must_parse, assign, with_cpu,
  kube_reserved_resources, system_reserved_resources,
}

abbrev pub up_to : ℕ → ℕ → ℕ
up_to n most = if leb n most then n else most

-- The reservation of CPU, tier by tier: 6 % of the first CPU, 1 % of the second, 0.5 % of the third
-- and fourth and 0.25 % of the others, each rounded down.
abbrev pub tiers : ℕ → ℕ
tiers n =
    up_to n 1000 * 6 / 100
    + up_to (n - 1000) 1000 / 100
    + up_to (n - 2000) 2000 * 5 / 1000
    + up_to (n - 4000) (2 ^ 31 - 4000) * 25 / 10000

-- The loop over the tiers reserves CPU as the tiers say, whatever the number of CPUs.
pub kube_reserved_cpu-tiers : (n : ℕ) → kube_reserved_cpu (pos n) ≡ some (tiers n)
unfolding kube_reserved_cpu reserve_ranges reserved_of_range
kube_reserved_cpu-tiers n = ground arith

tiers_monotone : (n m : ℕ) → n ≤ m → tiers n ≤ tiers m
tiers_monotone n m h = ground arith

tiers-le : (n : ℕ) → tiers n * 100 ≤ n * 6
tiers-le n = ground arith

-- More CPUs never reserve less, and no reservation of CPU is more than 6 % of the CPUs.
pub kube_reserved_cpu_bounds :
    (n m : ℕ)
    → n ≤ m
    → (few : ℕ) × (many : ℕ) × (kube_reserved_cpu (pos n) ≡ some few)
      × (kube_reserved_cpu (pos m) ≡ some many)
      × (few ≤ many)
      × (many * 100 ≤ m * 6)
kube_reserved_cpu_bounds n m h = (
  tiers n,
  tiers m,
  kube_reserved_cpu-tiers n,
  kube_reserved_cpu-tiers m,
  tiers_monotone n m h,
  tiers-le m,
)

-- A map of Go's, in which no key stands twice.
abbrev pub HasOneEach : Map String → Type 0
HasOneEach [] = Unit
HasOneEach ((key, text) ∷ rest) = (lookup key rest ≡ none) × HasOneEach rest

-- The user's text for a key, or what there was.
abbrev pub chosen : Option String → Option Amount → Option Amount
chosen none computed = computed
chosen (some text) computed = some (parsed text)

-- The entries that the user gives stand in place of those there are, and the others stay.
pub assign-chosen :
    (Q : Quantities) (user : Map String) (computed amounts : Map Amount) (key : String)
    → HasOneEach user
    → assign Q user computed ≡ some amounts
    → lookup key amounts ≡ chosen (lookup key user) (lookup key computed)
unfolding assign lookup must_parse
assign-chosen Q [] computed amounts key one h =
    let same : computed ≡ amounts = cc in ap (lookup key) (sym same)
assign-chosen Q ((k, text) ∷ user) computed amounts key one h = elim (Option-cases (Q.parse text)) [
  | inl bad ↦ let impossible : none ≡ some amounts = rw bad at h in absurd (none_ne_some impossible)
  | inr (q, good) ↦
      let rest =
        assign-chosen Q user (insert k (parsed text) computed) amounts key one.1 (rw good at h) in
      rest
      ∙ ap (chosen (lookup key user)) (lookup-insert k key (parsed text) computed)
      ∙ elim (Bool-cases (k == key)) [
        | inl same ↦ rw (same, subst (λ x. lookup x user ≡ none) ((eq_iff k key).0 same) one.0) refl
        | inr other ↦ rw other refl
      ]
]

-- What is computed for Kubernetes, by the key.
abbrev pub kube_computed : ℤ → ℕ → String → String → Option Amount
kube_computed cpu_millis memory_mib runtime_type key =
    if key == "cpu"
    then Option.map milli (kube_reserved_cpu cpu_millis)
    else if key == "memory"
    then some (mebibytes (kube_reserved_memory_mib memory_mib runtime_type))
    else none

-- What is computed for the system, by the key.
abbrev pub system_computed : ℕ → String → Option Amount
system_computed memory_mib key =
    if key == "memory" then some (mebibytes (system_reserved_memory_mib memory_mib)) else none

with_cpu-lookup :
    (o : Option ℕ) (a : Amount) (key : String)
    → lookup key (with_cpu o (("memory", a) ∷ []))
      ≡ (if key == "cpu" then Option.map milli o else if key == "memory" then some a else none)
unfolding lookup insert
with_cpu-lookup o a key = elim (Bool-cases (key == "cpu")) [
  | inl e ↦
      subst
        (λ k.
          lookup k (with_cpu o (("memory", a) ∷ []))
          ≡ (if k == "cpu" then Option.map milli o else if k == "memory" then some a else none))
        (sym ((eq_iff key "cpu").0 e))
        (elim (Option-cases o) [ inl none_made ↦ rw none_made refl | inr (n, made) ↦ rw made refl ])
  | inr e ↦ elim (Option-cases o) [
    | inl none_made ↦ rw (none_made, e) (ground (arith, eq_iff key "memory", eq_iff "memory" key))
    | inr (n, made) ↦
        rw (made, e)
          (ground (
            arith,
            e,
            eq_iff key "cpu",
            eq_iff "cpu" key,
            eq_iff key "memory",
            eq_iff "memory" key,
          ))
  ]
]

memory-lookup :
    (a : Amount) (key : String)
    → lookup key (("memory", a) ∷ []) ≡ (if key == "memory" then some a else none)
unfolding lookup
memory-lookup a key = ground (arith, eq_iff key "memory", eq_iff "memory" key)

-- What is reserved for Kubernetes and for the system is, for each key, what the user gives for it,
-- and where the user gives nothing what is computed: CPU and memory for Kubernetes, memory for the
-- system, and nothing else. The maps of the user have no key twice, and all their values are
-- quantities, so that there is no panic.
pub reserved_resources-chosen :
    (Q : Quantities) (cpu_millis : ℤ) (memory_mib : ℕ) (runtime_type : String)
    (user_kube user_system : Map String) (kube system : Map Amount) (key : String)
    → HasOneEach user_kube
    → HasOneEach user_system
    → kube_reserved_resources Q cpu_millis memory_mib runtime_type user_kube ≡ some kube
    → system_reserved_resources Q memory_mib user_system ≡ some system
    → (lookup key kube
        ≡ chosen (lookup key user_kube) (kube_computed cpu_millis memory_mib runtime_type key))
      × (lookup key system ≡ chosen (lookup key user_system) (system_computed memory_mib key))
unfolding kube_reserved_resources system_reserved_resources
reserved_resources-chosen Q cpu_millis memory_mib runtime_type uk us kube system key k1 s1 k s = (
  assign-chosen Q uk _ kube key k1 k
      ∙ ap (chosen (lookup key uk)) (with_cpu-lookup (kube_reserved_cpu cpu_millis) _ key),
  assign-chosen Q us _ system key s1 s ∙ ap (chosen (lookup key us)) (memory-lookup _ key),
)
