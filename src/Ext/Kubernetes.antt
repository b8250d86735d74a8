-- ===== src/Ext/Kubernetes.antt =====
-- The discovery of the Kubernetes API server, k8s.io/apimachinery's versions, and Karpenter's change
-- monitor for one text.
use karpenter_provider_huawe.Base.{ℕ, String, Bool, Option, Result}

-- version.Info
pub record VersionInfo : Type 0 where
  pub major : String
  pub minor : String

pub record Cluster : Type 1 where
  pub World : Type 0
  -- Discovery().ServerVersion(); a nil answer is `none`.
  pub server_version : World → Result (Option VersionInfo) × World
  pub Version : Type 0
  -- version.ParseGeneric; `none` for an error.
  pub parse_generic : String → Option Version
  pub less_than : Version → Version → Bool
  pub Monitor : Type 0
  -- cm.HasChanged("kubernetes-version", v), at a time
  pub version_changed : ℕ → String → Monitor → Bool × Monitor
  -- pretty.NewChangeMonitor()
  pub new_change_monitor : Monitor
