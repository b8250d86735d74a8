-- ===== src/Pricing/Tests.antt =====
-- The theorems on prices, at a billing service that first does not know a product, and then rates
-- the others; and runs of the parsing of its errors.
use karpenter_provider_huawe.Base.{
  ℕ, suc, zero, ◌≡◌, refl, String, true, false, List, [], ◌∷◌, ◌++◌, map, any, ◌==◌, Option, none,
  some, length, arith, All, Result, ok, err, service,
}
use karpenter_provider_huawe.Base.Maps.{Map}
use karpenter_provider_huawe.Ext.Billing.{DemandProductInfo, RatingResult, Billing}
use karpenter_provider_huawe.Ext.Ecs.{Flavor}
use karpenter_provider_huawe.Ext.Samples.{unit_prices}
use karpenter_provider_huawe.Pricing.{
  ProductInfo, is_no_price, is_unsupported, build_demand_product_infos, Session, State,
  fetch_on_demand_pricing_batch, update_on_demand_pricing,
}
use karpenter_provider_huawe.Pricing.Messages.{
  product_resource_spec_from_message, unsupported_product_resource_spec,
}
use karpenter_provider_huawe.Pricing.Batch.{Ended, fetch_on_demand_pricing_batch-Ended}
use karpenter_provider_huawe.Pricing.Update.{Updated, update_on_demand_pricing-Updated}
use karpenter_provider_huawe.Pricing.Asked.{IsOther, Update, updates, updates-not_asked}

abbrev rate : DemandProductInfo → RatingResult ℕ
rate p = record { id = some p.id; amount = some 7; official_website_amount = none }

abbrev rate_all : List DemandProductInfo → List (RatingResult ℕ)
rate_all [] = []
rate_all (p ∷ ps) = rate p ∷ rate_all ps

abbrev answer_at : ℕ → List DemandProductInfo → Result (Option (List (RatingResult ℕ)))
answer_at zero ps = err (
    service (record {
      status_code = 400;
      error_code = "CBC.6006";
      error_message = "Can not find product c7.large.2.linux, region r";
    }))
answer_at (suc n) ps = ok (some (rate_all ps))

abbrev billing : Billing
billing = record {
  float = unit_prices;
  is_nan = λ x. false;
  is_inf = λ x. false;
  Decimal = ℕ;
  inexact_float64 = λ d. d;
  unmarshal_payload = λ text. none;
  World = ℕ;
  list_on_demand_resource_ratings = λ project precision ps w. (answer_at w ps, suc w);
}

abbrev flavor : String → Flavor
flavor name = record { id = name; name = name; vcpus = "2"; ram = 4096; os_extra_specs = none }

abbrev infos : Map Flavor
infos = ("s7.large.2", flavor "s7.large.2") ∷ ("c7.large.2", flavor "c7.large.2") ∷ []

abbrev products : List ProductInfo
unfolding build_demand_product_infos
products = build_demand_product_infos "r" infos

abbrev fresh : Session billing
fresh = record { world = 0; unsupported_products = [] }

abbrev unpriced : State billing
unpriced = record { on_demand_prices = []; session = fresh }

abbrev marked : State billing
marked = record {
  on_demand_prices = [];
  session = record { world = 0; unsupported_products = "c7.large.2" ∷ [] };
}

spec_from_message :
    product_resource_spec_from_message "x Can not find product c7.large.2.linux, region r"
    ≡ some "c7.large.2.linux"
unfolding product_resource_spec_from_message
spec_from_message = refl

update_run : update_on_demand_pricing billing "r" "p" infos unpriced ≡ (
  some (ok tt),
  record {
    on_demand_prices = ("s7.large.2", 7) ∷ [];
    session = record { world = 2; unsupported_products = "c7.large.2" ∷ [] };
  },
)
unfolding update_on_demand_pricing unsupported_product_resource_spec is_no_price
update_run = refl

fetch_on_demand_pricing_batch-Ended_example :
    Ended billing "p" products []
      (fetch_on_demand_pricing_batch billing "p" (length products) products fresh)
fetch_on_demand_pricing_batch-Ended_example =
    fetch_on_demand_pricing_batch-Ended billing "p" (length products) products fresh (omega arith)

update_on_demand_pricing-Updated_example :
    Updated billing unpriced (update_on_demand_pricing billing "r" "p" infos unpriced)
update_on_demand_pricing-Updated_example =
    update_on_demand_pricing-Updated billing "r" "p" infos unpriced

-- A billing service that keeps the ids it was asked for.
abbrev logged : Billing
logged = record {
  float = unit_prices;
  is_nan = λ x. false;
  is_inf = λ x. false;
  Decimal = ℕ;
  inexact_float64 = λ d. d;
  unmarshal_payload = λ text. none;
  World = List String;
  list_on_demand_resource_ratings =
      λ project precision ps w. (ok (some (rate_all ps)), map (λ p. p.id) ps ++ w);
}

abbrev NotLogged : List String → Type 0
NotLogged log = any (λ id. id == "c7.large.2") log ≡ false

NotLogged-others :
    (ps : List DemandProductInfo) (log : List String)
    → All (IsOther "c7.large.2") ps
    → NotLogged log
    → NotLogged (map (λ p. p.id) ps ++ log)
NotLogged-others [] log h k = k
NotLogged-others (p ∷ ps) log h k = rw (h.0, NotLogged-others ps log h.1 k) refl

abbrev logged_once : State logged
logged_once = record {
  on_demand_prices = [];
  session = record { world = "s7.large.2" ∷ []; unsupported_products = "c7.large.2" ∷ [] };
}

abbrev two_updates : List Update
two_updates = ("r", "p", infos) ∷ ("r", "p", infos) ∷ []

log_run :
    (updates logged two_updates logged_once).session.world
    ≡ "s7.large.2" ∷ "s7.large.2" ∷ "s7.large.2" ∷ []
unfolding update_on_demand_pricing
log_run = refl

updates-not_asked_example :
    (is_unsupported
        (updates logged two_updates logged_once).session.unsupported_products
        "c7.large.2"
      ≡ true)
    × NotLogged (updates logged two_updates logged_once).session.world
updates-not_asked_example =
    updates-not_asked logged "c7.large.2" NotLogged
      (λ project precision ps log. NotLogged-others ps log) two_updates logged_once refl refl
