-- ===== src/Ext/GoCache.antt =====
-- A cache of github.com/patrickmn/go-cache with its default expiration. Times are in nanoseconds; an
-- entry is returned up to its deadline, and not after it.
use karpenter_provider_huawe.Base.{
  ℕ, ◌+◌, ◌≡◌, String, Option, none, some, ◌==◌, if◌then◌else◌, leb,
}

pub record GoCache (V : Type 0) : Type 1 where
  pub Store : Type 0
  pub default_ttl : ℕ
  pub empty : Store
  -- Get(key) at a time.
  pub get : ℕ → String → Store → Option V
  -- Set(key, v, ttl) at a time, for a positive ttl.
  pub set : ℕ → ℕ → String → V → Store → Store
  pub get-empty : (now : ℕ) (k : String) → get now k empty ≡ none
  pub get-set :
      (now later ttl : ℕ) (k j : String) (v : V) (s : Store)
      → get later j (set now ttl k v s)
        ≡ (if k == j then (if leb later (now + ttl) then some v else none) else get later j s)
