-- ===== src/Pricing/Messages.antt =====
-- How pkg/providers/pricing/pricing.go reads the product that an error of the billing service names.
use karpenter_provider_huawe.Base.{
  String, Bool, Option, none, some, ◌==◌, ◌||◌, if◌then◌else◌, eqb, Error, ServiceResponseError,
  as_service,
}
use karpenter_provider_huawe.Base.Strings.{
  trim_space, after_first, from_first, before_any, up_to_last,
}
use karpenter_provider_huawe.Ext.Billing.{Billing}

abbrev pub is_unsupported_product_error_code : String → Bool
is_unsupported_product_error_code code = code == "CBC.6006" || code == "CBC.99006006"

abbrev pub if_named : String → Option String
if_named spec = if spec == "" then none else some spec

-- What follows the prefix, up to one of the characters `"\ ,]`.
unfoldable pub product_resource_spec_from_message : String → Option String
unfolding after_first before_any trim_space
product_resource_spec_from_message message = elim (after_first "Can not find product " message) [
  | none ↦ none
  | some value ↦ if_named (
      trim_space (
        before_any (λ c. eqb c b'"' || eqb c b'\\' || eqb c b' ' || eqb c b',' || eqb c b']')
          value))
]

module _ (B : Billing) where
  abbrev pub if_coded : Option (String × String) → Option (String × String)
  if_coded none = none
  if_coded (some (code, message)) = if code == "" then none else some (code, message)

  abbrev pub unmarshalled : Option String → Option (String × String)
  unmarshalled none = none
  unmarshalled (some text) = if_coded (B.unmarshal_payload text)

  -- The payload from the first `{"error_code":` of the message to its last brace.
  unfoldable pub service_error_payload_from_message : String → Option (String × String)
  unfolding from_first up_to_last
  service_error_payload_from_message message = elim (from_first "{\"error_code\":" message) [
    | none ↦ none
    | some rest ↦ unmarshalled (up_to_last b'}' rest)
  ]

  abbrev pub spec_if_unsupported : String → String → Option String
  unfolding product_resource_spec_from_message
  spec_if_unsupported code message =
      if is_unsupported_product_error_code code
      then product_resource_spec_from_message message
      else none

  unfoldable pub spec_of_service_error : ServiceResponseError → Option String
  unfolding service_error_payload_from_message spec_if_unsupported
  spec_of_service_error e = elim (service_error_payload_from_message e.error_message) [
    | some (code, message) ↦ spec_if_unsupported code message
    | none ↦ spec_if_unsupported e.error_code e.error_message
  ]

  unfoldable pub unsupported_product_resource_spec : Error → Option String
  unfolding spec_of_service_error as_service
  unsupported_product_resource_spec e = elim (as_service e) [
    | none ↦ none
    | some s ↦ spec_of_service_error s
  ]
