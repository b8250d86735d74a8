-- ===== src/Instance/Kubelet.antt =====
-- The kubelet settings of a node class, as pkg/providers/instance/instance.go checks them and turns
-- them into the extendParam of CreateNode. A map is read in the order of its entries; Go leaves that
-- order open, and with it which of several bad entries is reported.
pub mod Reserved
use Prim.Native.Char.{Char, code}
use karpenter_provider_huawe.Base.{
  ℕ, zero, suc, ◌+◌, ◌-◌, ◌*◌, ◌/◌, ◌%◌, ◌^◌, String, Bool, true, false, List, [], ◌∷◌, Option,
  none, some, ◌==◌, ◌&&◌, ◌||◌, if◌then◌else◌, is_set, not, ltb, leb, eqb, Result, ok, err, Error,
  plain, wrapped, fail_if, ◌>>=◌, ◌>>◌,
}
use karpenter_provider_huawe.Base.Int.{ℤ, pos, negsuc, sub_ℕ, ltb_ℤ}
use karpenter_provider_huawe.Base.Maps.{Map}
use karpenter_provider_huawe.Apis.{KubeletConfiguration}

-- resource.Quantity of k8s.io/apimachinery: parsing, the values that the program takes, and the
-- comparison with "<n>m", "<n>Mi" and "<n>Gi".
pub record Quantities : Type 1 where
  pub Quantity : Type 0
  pub parse : String → Option Quantity
  pub milli_value : Quantity → ℤ
  pub value : Quantity → ℤ
  pub is_milli : ℤ → Quantity → Bool
  pub is_units : ℤ → ℕ → Quantity → Bool

pub record ReservedValues : Type 0 where
  pub cpu : Option ℤ
  pub memory : Option ℤ
  pub pid : Option ℤ
  pub storage : Option ℤ

abbrev pub no_values : ReservedValues
no_values = record { cpu = none; memory = none; pid = none; storage = none }

unfoldable pub is_empty_values : ReservedValues → Bool
is_empty_values v =
    if is_set v.cpu
    then false
    else if is_set v.memory
    then false
    else if is_set v.pid
    then false
    else if is_set v.storage
    then false
    else true

abbrev pub max_create_node_int_value : ℕ
max_create_node_int_value = 2147483647

unfoldable pub to_create_node_int32 : ℤ → Result ℤ
to_create_node_int32 (negsuc n) = err (plain "%s must be non-negative")
to_create_node_int32 (pos n) =
    if ltb max_create_node_int_value n
    then err (plain "%s exceeds the maximum supported value %d")
    else ok (pos n)

-- strconv.ParseInt(s, 10, 32): an optional sign and at least one digit, within int32.
unfoldable pub parse_digits : ℕ → String → Option ℕ
parse_digits acc String.[] = some acc
parse_digits acc (String.◌∷◌ c s) =
    let rest = parse_digits (acc * 10 + (code c - b'0')) s in
    if leb b'0' (code c) && leb (code c) b'9' then rest else none

parse_unsigned : String → Option ℕ
unfolding parse_digits
parse_unsigned String.[] = none
parse_unsigned (String.◌∷◌ c s) = parse_digits 0 (String.◌∷◌ c s)

abbrev pub int32_of : Bool → Option ℕ → Option ℤ
int32_of negative none = none
int32_of false (some n) = if ltb n (2 ^ 31) then some (pos n) else none
int32_of true (some zero) = some (pos 0)
int32_of true (some (suc n)) = if leb (suc n) (2 ^ 31) then some (negsuc n) else none

unfoldable pub parse_int32 : String → Option ℤ
unfolding parse_unsigned
parse_int32 String.[] = none
parse_int32 (String.◌∷◌ c s) =
    if eqb (code c) b'-'
    then int32_of true (parse_unsigned s)
    else if eqb (code c) b'+'
    then int32_of false (parse_unsigned s)
    else int32_of false (parse_unsigned (String.◌∷◌ c s))

-- a % unit == 0 and a / unit of Go, for a positive unit.
abbrev pub is_multiple : ℤ → ℕ → Bool
is_multiple (pos n) unit = eqb (n % unit) 0
is_multiple (negsuc n) unit = eqb (suc n % unit) 0

abbrev pub quotient : ℤ → ℕ → ℤ
quotient (pos n) unit = pos (n / unit)
quotient (negsuc n) unit = sub_ℕ 0 (suc n / unit)

abbrev pub max_pods_out_of_range : Option ℤ → Bool
max_pods_out_of_range none = false
max_pods_out_of_range (some n) = ltb_ℤ n (pos 16) || ltb_ℤ (pos 256) n

-- NodeExtendParam, as far as it is set.
pub record NodeExtendParam : Type 0 where
  pub max_pods : Option ℤ
  pub kube_reserved : ReservedValues
  pub system_reserved : ReservedValues

unfoldable pub extend_param :
    KubeletConfiguration → ReservedValues → ReservedValues → Option NodeExtendParam
unfolding is_empty_values
extend_param k kube system =
    if not (is_set k.max_pods) && is_empty_values kube && is_empty_values system
    then none
    else some (record { max_pods = k.max_pods; kube_reserved = kube; system_reserved = system })

module _ (Q : Quantities) where
  unfoldable pub parse_quantity_as_milli_value : String → Result ℤ
  unfolding to_create_node_int32
  parse_quantity_as_milli_value text = elim (Q.parse text) [
    | none ↦ err (plain "%s must be a valid CPU quantity: %w")
    | some q ↦
        if Q.is_milli (Q.milli_value q) q
        then to_create_node_int32 (Q.milli_value q)
        else err (plain "%s must convert exactly to mcore")
  ]

  unfoldable pub parse_quantity_as_binary_unit_value : ℕ → String → Result ℤ
  unfolding to_create_node_int32
  parse_quantity_as_binary_unit_value unit text = elim (Q.parse text) [
    | none ↦ err (plain "%s must be a valid resource quantity: %w")
    | some q ↦
        if not (is_multiple (Q.value q) unit)
        then err (plain "%s must convert exactly to %s")
        else if Q.is_units (quotient (Q.value q) unit) unit q
        then to_create_node_int32 (quotient (Q.value q) unit)
        else err (plain "%s must convert exactly to %s")
  ]

  unfoldable pub parse_pid_value : String → Result ℤ
  unfolding parse_int32 to_create_node_int32
  parse_pid_value text = elim (parse_int32 text) [
    | none ↦ err (plain "%s must be a valid integer: %w")
    | some v ↦ to_create_node_int32 v
  ]

  -- One entry of the map.
  unfoldable pub reserve_entry : String → String → ReservedValues → Result ReservedValues
  reserve_entry key text out =
      if key == "cpu"
      then (do v ← parse_quantity_as_milli_value text; ok (record out { cpu = some v }))
      else if key == "memory"
      then (do
        v ← parse_quantity_as_binary_unit_value (1024 * 1024) text
        ok (record out { memory = some v }))
      else if key == "ephemeral-storage"
      then (do
        v ← parse_quantity_as_binary_unit_value (1024 * 1024 * 1024) text
        ok (record out { storage = some v }))
      else if key == "pid"
      then (do v ← parse_pid_value text; ok (record out { pid = some v }))
      else err (plain "%s uses unsupported key %q")

  unfoldable pub reserve_entries : Map String → ReservedValues → Result ReservedValues
  unfolding reserve_entry
  reserve_entries [] out = ok out
  reserve_entries ((key, text) ∷ rest) out = reserve_entry key text out >>= reserve_entries rest

  unfoldable pub parse_reserved_values : Map String → Result ReservedValues
  unfolding reserve_entries
  parse_reserved_values values = reserve_entries values no_values

  unfoldable pub validate_kubelet_for_create_node : Option KubeletConfiguration → Result (Unit {0})
  unfolding parse_reserved_values
  validate_kubelet_for_create_node none = ok tt
  validate_kubelet_for_create_node (some k) = do
    fail_if (max_pods_out_of_range k.max_pods) (plain "maxPods must be between %d and %d")
    _ ← parse_reserved_values k.kube_reserved
    _ ← parse_reserved_values k.system_reserved
    ok tt

  unfoldable pub resolve_create_node_kubelet :
      Option KubeletConfiguration → Result (Option NodeExtendParam)
  unfolding validate_kubelet_for_create_node parse_reserved_values extend_param
  resolve_create_node_kubelet none = ok none
  resolve_create_node_kubelet (some k) = do
    _ ← validate_kubelet_for_create_node (some k)
    kube ← parse_reserved_values k.kube_reserved
    system ← parse_reserved_values k.system_reserved
    ok (extend_param k kube system)
