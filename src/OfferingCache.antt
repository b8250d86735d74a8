-- ===== src/OfferingCache.antt =====
-- pkg/utils/offering_availability_cache.go: offerings marked as unavailable for a while. A cache
-- that is not configured (a nil pointer) is `none`.
pub mod Marks
pub mod Board
mod Tests
use karpenter_provider_huawe.Base.{ℕ, ◌+str◌, String, Bool, true, false, Option, none, some, is_set}
use karpenter_provider_huawe.Ext.GoCache.{GoCache}

pub record OfferingCache (G : GoCache (Unit {0})) : Type 0 where
  pub cache : G.Store
  pub ttl : ℕ

unfoldable pub offering_availability_key : String → String → String → String
offering_availability_key capacity_type instance_type zone =
    capacity_type +str "/" +str instance_type +str "/" +str zone

module _ (G : GoCache (Unit {0})) where
  unfoldable pub new_offering_availability_cache : ℕ → OfferingCache G
  new_offering_availability_cache ttl = record { cache = G.empty; ttl = ttl }

  -- TTL
  unfoldable pub ttl_of : Option (OfferingCache G) → ℕ
  ttl_of none = 0
  ttl_of (some c) = c.ttl

  unfoldable pub mark_unavailable :
      ℕ → String → String → String → Option (OfferingCache G) → Option (OfferingCache G)
  unfolding offering_availability_key
  mark_unavailable now capacity_type instance_type zone none = none
  mark_unavailable now capacity_type instance_type zone (some c) = some (record c {
    cache = G.set now c.ttl (offering_availability_key capacity_type instance_type zone) tt c.cache;
  })

  unfoldable pub is_unavailable : ℕ → String → String → String → Option (OfferingCache G) → Bool
  unfolding offering_availability_key
  is_unavailable now capacity_type instance_type zone none = false
  is_unavailable now capacity_type instance_type zone (some c) =
      is_set (G.get now (offering_availability_key capacity_type instance_type zone) c.cache)
