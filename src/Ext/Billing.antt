-- ===== src/Ext/Billing.antt =====
-- What the program calls of the BSS SDK, of encoding/json and of github.com/shopspring/decimal.
use karpenter_provider_huawe.Base.{ℕ, String, Bool, List, Option, Result}
use karpenter_provider_huawe.Ext.Scheduling.{Float64}

-- DemandProductInfo.
pub record DemandProductInfo : Type 0 where
  pub id : String
  pub cloud_service_type : String
  pub resource_type : String
  pub resource_spec : String
  pub region : String
  pub usage_factor : String
  pub usage_value : ℕ
  pub usage_measure_id : ℕ
  pub subscription_num : ℕ

-- DemandProductRatingResult and the response; a response that is nil, or has no results, is `none`.
pub record RatingResult (Decimal : Type 0) : Type 0 where
  pub id : Option String
  pub amount : Option Decimal
  pub official_website_amount : Option Decimal

pub record Billing : Type 1 where
  pub float : Float64
  pub is_nan : float.Float → Bool
  pub is_inf : float.Float → Bool
  pub Decimal : Type 0
  pub inexact_float64 : Decimal → float.Float
  -- json.Unmarshal into an error code and an error message; `none` for an error.
  pub unmarshal_payload : String → Option (String × String)
  pub World : Type 0
  -- ListOnDemandResourceRatings for a project, with the precision of the inquiry.
  pub list_on_demand_resource_ratings :
      String
      → ℕ
      → List DemandProductInfo
      → World
      → Result (Option (List (RatingResult Decimal))) × World
