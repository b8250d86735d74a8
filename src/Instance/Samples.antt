-- ===== src/Instance/Samples.antt =====
-- Values for the tests: quantities counted in thousandths, an API of CCE that has no capacity left in
-- the zone z2, and a node claim.
use karpenter_provider_huawe.Base.{
  ℕ, ◌+◌, ◌*◌, ◌/◌, String, [], ◌∷◌, Option, none, some, ◌==◌, if◌then◌else◌, ok, err, service,
  Result, arith,
}
use karpenter_provider_huawe.Base.Int.{pos, eqb_ℤ}
use karpenter_provider_huawe.Ext.GoCache.{GoCache}
use karpenter_provider_huawe.Ext.Samples.{timed_cache, unit_prices, value_lists}
use karpenter_provider_huawe.OfferingCache.{OfferingCache}
use karpenter_provider_huawe.Instance.Kubelet.{Quantities}
use karpenter_provider_huawe.Instance.NodeSpec.{NodeClaim}
use karpenter_provider_huawe.Instance.Candidates.Order.{IsPriceOrder}
use karpenter_provider_huawe.Instance.Create.{CceApi, NodeResponse, Session}

abbrev pub thousandths : Quantities
thousandths = record {
  Quantity = ℕ;
  parse = λ t.
      if t == "100m"
      then some 100
      else if t == "512Mi"
      then some (512 * 1024 * 1024 * 1000)
      else none;
  milli_value = λ q. pos q;
  value = λ q. pos ((q + 999) / 1000);
  is_milli = λ z q. eqb_ℤ z (pos q);
  is_units = λ z unit q. eqb_ℤ (pos (q / (unit * 1000))) z;
}

pub unit_prices-IsPriceOrder : IsPriceOrder unit_prices
unit_prices-IsPriceOrder = record {
  asym = λ x y h. ground arith;
  trans = λ x y z h k. ground arith;
  equal = λ x y h. ground arith;
}

abbrev pub answer : String → Result (Option NodeResponse)
answer zone =
    if zone == "z2"
    then err (
        service
          (record { status_code = 400; error_code = "CCE_CM.0021"; error_message = "sold out" }))
    else ok (
        some (record {
          metadata = some (record { uid = some "node-1" });
          status = some (record { server_id = some "server-1" });
        }))

abbrev pub api : CceApi
api = record {
  World = ℕ;
  clock = λ w. w;
  create_node = λ cluster_id spec w. (answer spec.az, w + 1);
  clock-create_node = λ cluster_id spec w. omega arith;
}

abbrev pub marks : GoCache (Unit {0})
marks = timed_cache (Unit {0}) 100

abbrev pub unmarked : OfferingCache marks
unmarked = record { cache = marks.empty; ttl = 100 }

abbrev pub session : Session value_lists api marks
session = record { world = 1; offerings = some unmarked }

abbrev pub claim : NodeClaim value_lists.Requirements
claim = record {
  uid = "claim-1";
  startup_taints = record { key = "starting"; value = ""; effect = "NoSchedule" } ∷ [];
  taints = record { key = "starting"; value = "yes"; effect = "NoSchedule" } ∷ [];
  requirements = [];
  instance_type_values = none;
}
