-- ===== src/Operator/Options.antt =====
-- The options of pkg/operator/operator.go that it reads from the environment: whether TLS
-- certificates are verified, and where the billing service is. A variable that is not set is empty.
use karpenter_provider_huawe.Base.{
  ◌≡◌, ◌≢◌, refl, String, Bool, true, false, List, [], ◌∷◌, Option, none, some, ◌==◌, if◌then◌else◌,
  any, Result, ok, err, plain, Bool-cases, inl, inr, eq_iff,
}
use karpenter_provider_huawe.Base.Strings.{trim_space}

abbrev pub one_of : List String → String → Bool
one_of texts t = any (λ s. s == t) texts

-- strconv.ParseBool
unfoldable pub parse_bool : String → Option Bool
parse_bool t =
    if one_of ("1" ∷ "t" ∷ "T" ∷ "true" ∷ "TRUE" ∷ "True" ∷ []) t
    then some true
    else if one_of ("0" ∷ "f" ∷ "F" ∷ "false" ∷ "FALSE" ∷ "False" ∷ []) t
    then some false
    else none

abbrev pub parsed_option : Option Bool → Result (Option Bool)
parsed_option none = err (plain "parsing %s: %w")
parsed_option (some ignore) = ok (some ignore)

-- sdkHTTPConfig, by what it sets of IgnoreSSLVerification: nothing, or a value.
unfoldable pub sdk_http_config : String → Result (Option Bool)
unfolding trim_space parse_bool
sdk_http_config variable =
    let raw = trim_space variable in if raw == "" then ok none else parsed_option (parse_bool raw)

-- region.Region of the SDK.
pub record Region : Type 0 where
  pub id : String
  pub endpoints : List String

abbrev pub billing_endpoint : String
billing_endpoint = "https://bss.myhuaweicloud.com"

-- NewRegion of the SDK.
abbrev pub new_region : String → String → Region
new_region id endpoint = record { id = id; endpoints = endpoint ∷ [] }

-- What SafeValueOf of the SDK's regions finds for an id; an error, or nil, is `none`.
abbrev pub known_region : String → Option Region → Region
known_region id none = new_region id billing_endpoint
known_region id (some region) = region

unfoldable pub billing_region : (String → Option Region) → String → String → Region
unfolding trim_space
billing_region safe_value_of variable id =
    let endpoint = trim_space variable in
    if endpoint == "" then known_region id (safe_value_of id) else new_region id endpoint

abbrev pub first_endpoint : List String → String
first_endpoint [] = ""
first_endpoint (endpoint ∷ rest) = endpoint

-- A region that is nil is `none`.
unfoldable pub billing_region_endpoint : Option Region → String
billing_region_endpoint none = ""
billing_region_endpoint (some region) = first_endpoint region.endpoints

known_region-nonempty :
    (id : String) (found : Option Region)
    → ((r : Region) → found ≡ some r → billing_region_endpoint (some r) ≢ "")
    → billing_region_endpoint (some (known_region id found)) ≢ ""
unfolding billing_region_endpoint
known_region-nonempty id none h = λ e. cc e
known_region-nonempty id (some r) h = h r refl

-- The billing service has an address, whatever the environment and the region: the one of the
-- environment, without the spaces around it, if there is one. The SDK's regions have endpoints.
pub billing_region-endpoint :
    (safe_value_of : String → Option Region) (variable id : String)
    → ((r : Region) → safe_value_of id ≡ some r → billing_region_endpoint (some r) ≢ "")
    → let endpoint = billing_region_endpoint (some (billing_region safe_value_of variable id)) in
      (endpoint ≢ "") × (((trim_space variable == "") ≡ false) → endpoint ≡ trim_space variable)
unfolding billing_region billing_region_endpoint
billing_region-endpoint safe_value_of variable id has_endpoints =
    elim (Bool-cases (trim_space variable == "")) [
      | inl e ↦
          rw e
            (known_region-nonempty id (safe_value_of id) has_endpoints, λ given. absurd (cc given))
      | inr e ↦ rw e (
        (λ empty. let same = (eq_iff (trim_space variable) "").1 empty in absurd (cc (same, e))),
        λ given. refl,
      )
    ]
