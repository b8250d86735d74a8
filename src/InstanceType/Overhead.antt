-- ===== src/InstanceType/Overhead.antt =====
-- What pkg/providers/instancetype/types.go takes off the capacity of a node: the resources reserved
-- for Kubernetes and for the system, and the threshold of eviction. `none` stands for the panic of
-- resource.MustParse on a text that is no quantity, and of mustParsePercentage.
use karpenter_provider_huawe.Base.{
  ℕ, ◌+◌, ◌-◌, ◌*◌, ◌/◌, ◌^◌, String, List, [], ◌∷◌, Option, none, some, if◌then◌else◌, leb, ltb,
}
use karpenter_provider_huawe.Base.Int.{ℤ, pos, negsuc}
use karpenter_provider_huawe.Base.Maps.{Map, insert}
use karpenter_provider_huawe.Base.Strings.{trim, has_suffix}
use karpenter_provider_huawe.Ext.Float32.{Float32}
use karpenter_provider_huawe.Ext.Scheduling.{Amount, parsed, mebibytes, milli, whole}
use karpenter_provider_huawe.Instance.Kubelet.{Quantities}
use karpenter_provider_huawe.InstanceType.Memory.{
  system_reserved_memory_mib, kube_reserved_memory_mib,
}

abbrev pub resource_cpu : String
resource_cpu = "cpu"

abbrev pub resource_memory : String
resource_memory = "memory"

abbrev pub resource_ephemeral_storage : String
resource_ephemeral_storage = "ephemeral-storage"

-- One tier of CCE's reservation of CPU, in millis, with its part of them as a fraction. The float64
-- of each fraction is closer to it than 2 ^ -54 of its value, so that the product with a number of
-- millis below 2 ^ 31, which is a whole number or off one by a part of the denominator, has the
-- integer part that the fraction has.
pub record CpuRange : Type 0 where
  pub start : ℕ
  pub end : ℕ
  pub numerator : ℕ
  pub denominator : ℕ

abbrev pub cpu_ranges : List CpuRange
cpu_ranges =
    record { start = 0; end = 1000; numerator = 6; denominator = 100 }
    ∷ record { start = 1000; end = 2000; numerator = 1; denominator = 100 }
    ∷ record { start = 2000; end = 4000; numerator = 5; denominator = 1000 }
    ∷ record { start = 4000; end = 2 ^ 31; numerator = 25; denominator = 10000 }
    ∷ []

-- int64(r * percentage)
unfoldable pub reserved_of_range : ℕ → CpuRange → ℕ
reserved_of_range cpu range =
    (if ltb cpu range.end then cpu - range.start else range.end - range.start)
    * range.numerator
    / range.denominator

abbrev pub or_none : Option ℕ → ℕ
or_none none = 0
or_none (some n) = n

-- The loop over the tiers, with what is reserved so far.
unfoldable pub reserve_ranges : ℕ → List CpuRange → Option ℕ → Option ℕ
unfolding reserved_of_range
reserve_ranges cpu [] reserved = reserved
reserve_ranges cpu (range ∷ ranges) reserved = reserve_ranges cpu ranges (
    if leb range.start cpu then some (or_none reserved + reserved_of_range cpu range) else reserved)

-- The entry of cpu that the loop makes; a number of millis below 0 is in no tier.
unfoldable pub kube_reserved_cpu : ℤ → Option ℕ
unfolding reserve_ranges
kube_reserved_cpu (negsuc n) = none
kube_reserved_cpu (pos n) = reserve_ranges n cpu_ranges none

abbrev pub with_cpu : Option ℕ → Map Amount → Map Amount
unfolding insert
with_cpu none amounts = amounts
with_cpu (some n) amounts = insert resource_cpu (milli n) amounts

-- mustParsePercentage
abbrev pub percentage_of : (F : Float32) → Option F.Float → Option F.Float
percentage_of F none = none
percentage_of F (some p) = some (if F.is_100 p then F.zero else F.hundredth p)

unfoldable pub must_parse_percentage : (F : Float32) → String → Option F.Float
unfolding trim
must_parse_percentage F v = percentage_of F (F.parse (trim b'%' v))

module _ (Q : Quantities) where
  -- resource.MustParse of a text of the user.
  abbrev pub amount_of : String → Option Q.Quantity → Option Amount
  amount_of text none = none
  amount_of text (some q) = some (parsed text)

  unfoldable pub must_parse : String → Option Amount
  must_parse text = amount_of text (Q.parse text)

  abbrev pub insert_parsed :
      String → Option Amount → Map Amount → (Map Amount → Option (Map Amount)) → Option (Map Amount)
  unfolding insert
  insert_parsed key none amounts goes_on = none
  insert_parsed key (some a) amounts goes_on = goes_on (insert key a amounts)

  -- lo.Assign of the parsed entries onto others.
  unfoldable pub assign : Map String → Map Amount → Option (Map Amount)
  unfolding must_parse insert_parsed
  assign [] amounts = some amounts
  assign ((key, text) ∷ rest) amounts =
      insert_parsed key (must_parse text) amounts (λ m. assign rest m)

  unfoldable pub kube_reserved_resources : ℤ → ℕ → String → Map String → Option (Map Amount)
  unfolding kube_reserved_cpu with_cpu assign
  kube_reserved_resources cpu_millis memory_mib runtime_type kube_reserved = assign kube_reserved (
      with_cpu (kube_reserved_cpu cpu_millis)
        ((resource_memory, mebibytes (kube_reserved_memory_mib memory_mib runtime_type)) ∷ []))

  unfoldable pub system_reserved_resources : ℕ → Map String → Option (Map Amount)
  unfolding assign
  system_reserved_resources memory_mib system_reserved =
      assign system_reserved
        ((resource_memory, mebibytes (system_reserved_memory_mib memory_mib)) ∷ [])

  module _ (F : Float32) where
    abbrev pub scaled : ℤ → Option F.Float → Option Amount
    scaled capacity none = none
    scaled capacity (some p) = some (whole (F.scale capacity p))

    unfoldable pub compute_eviction_signal : ℤ → String → Option Amount
    unfolding must_parse_percentage has_suffix must_parse
    compute_eviction_signal capacity signal =
        if has_suffix b'%' signal
        then scaled capacity (must_parse_percentage F signal)
        else must_parse signal

    abbrev pub default_node_fs_eviction_threshold : String
    default_node_fs_eviction_threshold = "10%"

    abbrev pub thresholds : Option Amount → Option (Map Amount)
    thresholds none = none
    thresholds (some storage) =
        some ((resource_memory, mebibytes 100) ∷ (resource_ephemeral_storage, storage) ∷ [])

    unfoldable pub eviction_threshold : ℤ → Option (Map Amount)
    unfolding compute_eviction_signal
    eviction_threshold ephemeral_storage =
        thresholds (compute_eviction_signal ephemeral_storage default_node_fs_eviction_threshold)
