-- ===== src/Controllers/Providers.antt =====
-- The controllers of pkg/controllers/providers, which call one operation of a provider at intervals:
-- instancetype, pricing and version. `none` as an outcome stands for a run that does not end, or a
-- panic.
use karpenter_provider_huawe.Base.{
  ℕ, ◌*◌, String, List, Option, none, some, Result, ok, err, wrapped,
}
use karpenter_provider_huawe.Ext.Billing.{Billing}
use karpenter_provider_huawe.Ext.Ecs.{EcsApi}
use karpenter_provider_huawe.Ext.GoCache.{GoCache}
use karpenter_provider_huawe.Ext.Kubernetes.{Cluster}
use karpenter_provider_huawe.Ext.Scheduling.{Scheduling, InstanceType}
use karpenter_provider_huawe.InstanceTypes
use karpenter_provider_huawe.InstanceTypes.{ChangeMonitor, instance_type_infos}
use karpenter_provider_huawe.InstanceTypes.Refresh.{refresh}
use karpenter_provider_huawe.Pricing
use karpenter_provider_huawe.Pricing.{update_on_demand_pricing}
use karpenter_provider_huawe.Version
use karpenter_provider_huawe.Version.{update_version_with_validation}
use karpenter_provider_huawe.Controllers.Requests.{Request, after_seconds}

-- An error is wrapped; after a success the operation is due again in some seconds.
unfoldable pub due_again : String → ℕ → Option (Result (Unit {0})) → Option (Result Request)
due_again message seconds none = none
due_again message seconds (some (err e)) = some (err (wrapped message e))
due_again message seconds (some (ok done)) = some (ok (after_seconds seconds))

module _ (S : Scheduling) (G : GoCache (Unit {0})) (T : GoCache (List (InstanceType S)))
    (D : GoCache ℕ) (E : EcsApi) (M : ChangeMonitor) where
  -- Reconcile of the instance type controller.
  unfoldable pub reconcile_instance_types :
      ℕ
      → InstanceTypes.State S G T D E M
      → Option (Result Request) × InstanceTypes.State S G T D E M
  unfolding refresh due_again
  reconcile_instance_types fuel s =
      let (r, s') = refresh S G T D E M fuel s in
      (due_again "updating instancetype, %w" (12 * 3600) r, s')

  -- Reconcile of the pricing controller, with what it reads of the instance type provider.
  unfoldable pub reconcile_pricing :
      (B : Billing)
      → String
      → String
      → InstanceTypes.State S G T D E M
      → Pricing.State B
      → Option (Result Request) × Pricing.State B
  unfolding update_on_demand_pricing due_again instance_type_infos
  reconcile_pricing B region project_id s p =
      let (r, p') =
        update_on_demand_pricing B region project_id (instance_type_infos S G T D E M s) p in
      (due_again "updating on-demand pricing, %w" (12 * 3600) r, p')

-- Reconcile of the version controller.
unfoldable pub reconcile_version :
    (K : Cluster) → ℕ → Version.State K → Option (Result Request) × Version.State K
unfolding update_version_with_validation due_again
reconcile_version K now p =
    let (r, p') = update_version_with_validation K now p in
    (due_again "updating version, %w" (5 * 60) r, p')
