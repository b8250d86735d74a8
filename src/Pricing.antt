-- ===== src/Pricing.antt =====
-- pkg/providers/pricing/pricing.go: the on-demand prices of instance types, asked for in batches. A
-- product that the billing service does not know is left out, and not asked for again.
pub mod Messages
pub mod Rounds
pub mod Batch
pub mod Update
pub mod Asked
mod Tests
use Prim.Native.String.{compare}
use text.Mathlib.Text.{is_lt}
use karpenter_provider_huawe.Base.{
  ℕ, zero, suc, ◌+str◌, String, Bool, true, false, List, [], ◌∷◌, map, Option, none, some, ◌==◌,
  not, ◌||◌, if◌then◌else◌, any, keep_if, reject, take, drop, length, is_empty, is_set, Result, ok,
  err, Error, plain, wrapped, wrap_error,
}
use karpenter_provider_huawe.Base.Maps.{Map, lookup, insert}
use karpenter_provider_huawe.Base.Sort.{sort_slice}
use karpenter_provider_huawe.Ext.Billing.{DemandProductInfo, RatingResult, Billing}
use karpenter_provider_huawe.Ext.Ecs.{Flavor}
use karpenter_provider_huawe.Pricing.Messages.{unsupported_product_resource_spec}

-- demandProductInfo
pub record ProductInfo : Type 0 where
  pub instance_type : String
  pub resource_spec : String
  pub product_info : DemandProductInfo

unfoldable pub resource_spec : Flavor → String
resource_spec f = (if f.id == "" then f.name else f.id) +str ".linux"

abbrev pub max_products_per_batch : ℕ
max_products_per_batch = 100

unfoldable pub product_of : String → String × Flavor → ProductInfo
unfolding resource_spec
product_of region (name, f) = record {
  instance_type = name;
  resource_spec = resource_spec f;
  product_info = record {
    id = name;
    cloud_service_type = "hws.service.type.ec2";
    resource_type = "hws.resource.type.vm";
    resource_spec = resource_spec f;
    region = region;
    usage_factor = "Duration";
    usage_value = 1;
    usage_measure_id = 4;
    subscription_num = 1;
  };
}

abbrev pub before_name : String × Flavor → String × Flavor → Bool
before_name a b = is_lt (compare a.0 b.0)

unfoldable pub build_demand_product_infos : String → Map Flavor → List ProductInfo
unfolding product_of sort_slice
build_demand_product_infos region infos = map (product_of region) (sort_slice before_name infos)

abbrev pub request_product_infos : List ProductInfo → List DemandProductInfo
request_product_infos = map (λ p. p.product_info)

-- The products that remain, and those that are removed.
unfoldable pub filter_out_product_info :
    String → List ProductInfo → List ProductInfo × List ProductInfo
filter_out_product_info spec [] = ([], [])
filter_out_product_info spec (p ∷ ps) =
    let (filtered, removed) = filter_out_product_info spec ps in
    if p.resource_spec == spec then (filtered, p ∷ removed) else (p ∷ filtered, removed)

abbrev pub is_unsupported : List String → String → Bool
is_unsupported unsupported name = any (λ n. n == name) unsupported

unfoldable pub mark_unsupported_products : List ProductInfo → List String → List String
mark_unsupported_products [] unsupported = unsupported
mark_unsupported_products (p ∷ ps) unsupported = mark_unsupported_products ps (
    if is_unsupported unsupported p.instance_type
    then unsupported
    else p.instance_type ∷ unsupported)

unfoldable pub filter_unsupported_instance_types : List String → Map Flavor → Map Flavor
filter_unsupported_instance_types unsupported = reject (λ e. is_unsupported unsupported e.0)

module _ (B : Billing) where
  abbrev pub Prices : Type 0
  Prices = Map B.float.Float

  unfoldable pub price_from_rating_result : RatingResult B.Decimal → B.float.Float
  price_from_rating_result r = elim r.amount [
    | some d ↦ B.inexact_float64 d
    | none ↦ elim r.official_website_amount [ some d ↦ B.inexact_float64 d | none ↦ B.float.zero ]
  ]

  -- price <= 0 || math.IsNaN(price) || math.IsInf(price, 0)
  unfoldable pub is_no_price : B.float.Float → Bool
  is_no_price x =
      (B.float.lt x B.float.zero || B.float.eq x B.float.zero) || B.is_nan x || B.is_inf x

  abbrev pub put_price : Option String → B.float.Float → Prices → Prices
  unfolding insert
  put_price none x prices = prices
  put_price (some id) x prices = if is_no_price x then prices else insert id x prices

  unfoldable pub rating_prices : List (RatingResult B.Decimal) → Prices → Prices
  unfolding put_price price_from_rating_result
  rating_prices [] prices = prices
  rating_prices (r ∷ rs) prices =
      rating_prices rs (put_price r.id (price_from_rating_result r) prices)

  unfoldable pub on_demand_page : Option (List (RatingResult B.Decimal)) → Prices
  unfolding rating_prices
  on_demand_page none = []
  on_demand_page (some rs) = rating_prices rs []

  unfoldable pub merge_on_demand_pricing : Prices → Prices → Prices
  unfolding insert
  merge_on_demand_pricing merged [] = merged
  merge_on_demand_pricing merged ((name, x) ∷ rest) =
      merge_on_demand_pricing (insert name x merged) rest

  -- What the loops change: the world of the billing service and the unsupported products.
  pub record Session : Type 0 where
    pub world : B.World
    pub unsupported_products : List String

  -- One round of a batch: it ends the batch, or goes on with fewer products.
  pub data Round : Type 0 where
    ends : Result (Option (List (RatingResult B.Decimal))) → Round
    goes_on : List ProductInfo → Round

  abbrev pub list_ratings_failed : Error → Error
  list_ratings_failed = wrapped "list on-demand resource ratings, %w"

  -- After an error that names a product: it is removed, if there is one.
  unfoldable pub remove_product :
      Error → List ProductInfo × List ProductInfo → Session → Round × Session
  unfolding mark_unsupported_products
  remove_product e (filtered, []) s = (ends (err (list_ratings_failed e)), s)
  remove_product e (filtered, p ∷ ps) s = (
    goes_on filtered,
    record s { unsupported_products = mark_unsupported_products (p ∷ ps) s.unsupported_products },
  )

  -- After an error, and the product that it says is unsupported.
  unfoldable pub after_error : Error → Option String → List ProductInfo → Session → Round × Session
  unfolding remove_product filter_out_product_info
  after_error e none remaining s = (ends (err (list_ratings_failed e)), s)
  after_error e (some spec) remaining s =
      remove_product e (filter_out_product_info spec remaining) s

  unfoldable pub after_answer :
      List ProductInfo → Result (Option (List (RatingResult B.Decimal))) → Session → Round × Session
  unfolding after_error
  after_answer remaining (ok response) s = (ends (ok response), s)
  after_answer remaining (err e) s =
      after_error e (unsupported_product_resource_spec B e) remaining s

  unfoldable pub round : String → List ProductInfo → Session → Round × Session
  unfolding after_answer
  round project_id remaining s =
      let (answer, w) =
        B.list_on_demand_resource_ratings project_id 1 (request_product_infos remaining) s.world in
      after_answer remaining answer (record s { world = w })

  -- The loop while products remain; `none` if the fuel runs out.
  unfoldable pub fetch_on_demand_pricing_batch :
      String
      → ℕ
      → List ProductInfo
      → Session
      → Option (Result (Option (List (RatingResult B.Decimal)))) × Session
  unfolding round
  fetch_on_demand_pricing_batch project_id fuel [] s = (some (ok none), s)
  fetch_on_demand_pricing_batch project_id zero (p ∷ ps) s = (none, s)
  fetch_on_demand_pricing_batch project_id (suc fuel) (p ∷ ps) s =
      let (r, s') = round project_id (p ∷ ps) s in
      elim r [
        | ends answer ↦ (some answer, s')
        | goes_on remaining ↦ fetch_on_demand_pricing_batch project_id fuel remaining s'
      ]

  -- What follows a batch: the next ones, with its prices merged.
  abbrev pub then_merge :
      Option (Result (Option (List (RatingResult B.Decimal)))) × Session
      → Prices
      → (Prices → Session → Option (Result Prices) × Session)
      → Option (Result Prices) × Session
  unfolding merge_on_demand_pricing on_demand_page
  then_merge (none, s) prices next = (none, s)
  then_merge (some (err e), s) prices next = (some (err e), s)
  then_merge (some (ok response), s) prices next =
      next (merge_on_demand_pricing prices (on_demand_page response)) s

  -- The loop over the batches.
  unfoldable pub fetch_batches :
      String → ℕ → List ProductInfo → Prices → Session → Option (Result Prices) × Session
  unfolding fetch_on_demand_pricing_batch then_merge
  fetch_batches project_id fuel [] prices s = (some (ok prices), s)
  fetch_batches project_id zero (p ∷ ps) prices s = (none, s)
  fetch_batches project_id (suc fuel) (p ∷ ps) prices s =
      let batch = take max_products_per_batch (p ∷ ps) in
      then_merge (fetch_on_demand_pricing_batch project_id (length batch) batch s) prices
        (fetch_batches project_id fuel (drop max_products_per_batch (p ∷ ps)))

  unfoldable pub fetch_on_demand_pricing :
      String → String → Map Flavor → Session → Option (Result Prices) × Session
  unfolding fetch_batches build_demand_product_infos filter_unsupported_instance_types
  fetch_on_demand_pricing region project_id infos s =
      let products =
        build_demand_product_infos region
          (filter_unsupported_instance_types s.unsupported_products infos) in
      fetch_batches project_id (length products) products [] s

  -- The provider.
  pub record State : Type 0 where
    pub on_demand_prices : Prices
    pub session : Session

  -- NewDefaultProvider
  unfoldable pub new_default_provider : B.World → State
  new_default_provider w = record {
    on_demand_prices = [];
    session = record { world = w; unsupported_products = [] };
  }

  abbrev pub store_prices :
      State → Option (Result Prices) × Session → Option (Result (Unit {0})) × State
  store_prices p (none, s) = (none, record p { session = s })
  store_prices p (some (err e), s) = (some (err e), record p { session = s })
  store_prices p (some (ok prices), s) =
      (some (ok tt), record { on_demand_prices = prices; session = s })

  -- UpdateOnDemandPricing, for the project id that the provider of project ids gives (empty if there
  -- is none).
  unfoldable pub update_on_demand_pricing :
      String → String → Map Flavor → State → Option (Result (Unit {0})) × State
  unfolding fetch_on_demand_pricing
  update_on_demand_pricing region project_id infos p =
      if project_id == ""
      then (some (err (plain "project id is empty")), p)
      else if is_empty infos
      then (some (err (plain "no instance types found")), p)
      else store_prices p (fetch_on_demand_pricing region project_id infos p.session)

  unfoldable pub on_demand_price : String → State → Option B.float.Float
  unfolding lookup
  on_demand_price name p = lookup name p.on_demand_prices

  -- InstanceTypes
  unfoldable pub instance_types : State → List String
  unfolding sort_slice
  instance_types p = sort_slice (λ a b. is_lt (compare a b)) (map (λ e. e.0) p.on_demand_prices)
