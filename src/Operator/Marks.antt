-- ===== src/Operator/Marks.antt =====
-- The cache of unavailable offerings of an operator of pkg/operator/operator.go: one cache, made by
-- NewOperator, for the instance provider and the instance type provider.
use karpenter_provider_huawe.Base.{◌≡◌, Option, some}
use karpenter_provider_huawe.OfferingCache.{OfferingCache}
use karpenter_provider_huawe.InstanceTypes
use karpenter_provider_huawe.Version
use karpenter_provider_huawe.Operator.Clients.{Services}
use karpenter_provider_huawe.Operator.{Operator, unavailable_offering_ttl}

module _ (V : Services) where
  -- There is a cache, whose marks last five minutes.
  abbrev IsMade : Option (OfferingCache V.marks) → Type 0
  IsMade marks =
      (oc : OfferingCache V.marks) × (marks ≡ some oc) × (oc.ttl ≡ unavailable_offering_ttl)

  abbrev HasMarks : Operator V → Type 0
  HasMarks o = IsMade o.types.offering_availability_cache
