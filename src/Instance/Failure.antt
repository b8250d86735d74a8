-- ===== src/Instance/Failure.antt =====
-- How pkg/providers/instance/instance.go reads an error of the Huawei Cloud SDK.
use text.Mathlib.Text.{find?}
use karpenter_provider_huawe.Base.{
  String, Bool, true, false, List, [], ◌∷◌, none, some, ◌==◌, not, if◌then◌else◌, is_set, any, eqb,
  Error, ServiceResponseError, as_service,
}

-- strings.Contains
abbrev pub contains_text : String → String → Bool
contains_text msg part = is_set (find? msg part)

abbrev pub insufficient_messages : List String
insufficient_messages =
    "insufficient in specified az" ∷ "insufficient capacity" ∷ "out of stock" ∷ "sold out"
    ∷ "sell out" ∷ []

unfoldable pub service_is_insufficient : ServiceResponseError → Bool
service_is_insufficient e =
    if not (e.error_code == "")
    then e.error_code == "CCE_CM.0021"
    else any (contains_text e.error_message) insufficient_messages

unfoldable pub is_insufficient_capacity_error : Error → Bool
unfolding service_is_insufficient as_service
is_insufficient_capacity_error err = elim (as_service err) [
  | none ↦ false
  | some e ↦ service_is_insufficient e
]

unfoldable pub is_unsupported_network_error : Error → Bool
unfolding as_service
is_unsupported_network_error err = elim (as_service err) [
  | none ↦ false
  | some e ↦
      if e.error_code == "CCE.01400025"
      then true
      else contains_text e.error_message "Eni network is not supported"
]

unfoldable pub is_not_found_error : Error → Bool
unfolding as_service
is_not_found_error err = elim (as_service err) [ none ↦ false | some e ↦ eqb e.status_code 404 ]
