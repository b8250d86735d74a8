-- ===== src/Subnet/Predicted.antt =====
-- The addresses that pkg/providers/subnet/subnet.go predicts for a launch (minPods,
-- maxPredictedIPsUsed).
use karpenter_provider_huawe.Base.{
  String, List, [], ◌∷◌, arith, Bool-cases, inl, inr, if◌then◌else◌, keep_if,
}
use karpenter_provider_huawe.Base.Int.{ℤ, pos, ltb_ℤ, wrap32-IsInt32, IsInt32}
use karpenter_provider_huawe.Ext.Scheduling.{Scheduling, InstanceType}
use karpenter_provider_huawe.Subnet.{
  predicted_ips, max_predicted, min_pods, least_pods_of, launch_zones, zone_requirements,
  has_available,
}

module _ (S : Scheduling) where
  least_pods_of-IsInt32 : (its : List (InstanceType S)) → IsInt32 (least_pods_of S its)
  unfolding least_pods_of
  least_pods_of-IsInt32 [] = record { above = omega arith; below = omega arith }
  least_pods_of-IsInt32 (it ∷ its) = wrap32-IsInt32 _

  min_pods-IsInt32 :
      (its : List (InstanceType S)) (reqs : S.Requirements) → IsInt32 (min_pods S its reqs)
  unfolding min_pods
  min_pods-IsInt32 its reqs = least_pods_of-IsInt32 (keep_if (has_available S reqs) its)

  -- The reservation of a launch is an int32.
  pub predicted_ips-IsInt32 :
      (capacity_type : String) (its : List (InstanceType S))
      → IsInt32 (predicted_ips S capacity_type its)
  unfolding predicted_ips max_predicted
  predicted_ips-IsInt32 capacity_type its =
      fold (launch_zones S capacity_type its []) (pos 0)
        (record { above = omega arith; below = omega arith })
    where
      larger : (most n : ℤ) → IsInt32 most → IsInt32 n → IsInt32 (if ltb_ℤ most n then n else most)
      larger most n h k = elim (Bool-cases (ltb_ℤ most n)) [ inl e ↦ rw e k | inr e ↦ rw e h ]

      fold :
          (zones : List String) (most : ℤ)
          → IsInt32 most
          → IsInt32 (max_predicted S capacity_type its zones most)
      fold [] most h = h
      fold (z ∷ zones) most h = fold zones _ (
          larger most (min_pods S its (zone_requirements S capacity_type z)) h
            (min_pods-IsInt32 its (zone_requirements S capacity_type z)))
