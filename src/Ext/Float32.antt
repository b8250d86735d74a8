-- ===== src/Ext/Float32.antt =====
-- Go's float32 and float64 as the program uses them for percentages.
use karpenter_provider_huawe.Base.{String, Bool, Option}
use karpenter_provider_huawe.Base.Int.{ℤ}

pub record Float32 : Type 1 where
  pub Float : Type 0
  pub zero : Float
  -- strconv.ParseFloat(v, 32)
  pub parse : String → Option Float
  -- p == 100 and float32(p) / 100
  pub is_100 : Float → Bool
  pub hundredth : Float → Float
  -- int64(float64(n) * float64(p))
  pub scale : ℤ → Float → ℤ
