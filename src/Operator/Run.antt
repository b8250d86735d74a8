-- ===== src/Operator/Run.antt =====
-- NewOperator of pkg/operator/operator.go and the operations that follow it: those of the cloud
-- provider, and the controllers' rounds that NewControllers of pkg/controllers/controllers.go sets up.
-- The clients of the region and the credentials are given; without them NewOperator panics.
use karpenter_provider_huawe.Base.{
  ℕ, ◌≤◌, ◌≡◌, String, List, Option, none, some, ◌==◌, if◌then◌else◌, Result, ok, err,
}
use karpenter_provider_huawe.Apis.{CceNodeClass}
use karpenter_provider_huawe.Ext.Scheduling.{InstanceType}
use karpenter_provider_huawe.OfferingCache.{new_offering_availability_cache}
use karpenter_provider_huawe.Subnet
use karpenter_provider_huawe.Subnet.{VpcSubnet}
use karpenter_provider_huawe.InstanceTypes
use karpenter_provider_huawe.InstanceTypes.Refresh
use karpenter_provider_huawe.Pricing
use karpenter_provider_huawe.Version
use karpenter_provider_huawe.Controllers.Providers.{
  reconcile_instance_types, reconcile_pricing, reconcile_version,
}
use karpenter_provider_huawe.Operator.Clients.{Services}
use karpenter_provider_huawe.Operator.{
  Operator, Sched, Claims, unavailable_offering_ttl, now, list_types, create_instance,
  delete_instance,
}

module _ (V : Services) where
  -- Refresh, whose error is logged.
  unfoldable pub preload_types : ℕ → Operator V → Operator V
  preload_types fuel o =
      let (r, types) =
        Refresh.refresh (Sched V) V.marks V.types V.capacities V.ecs V.monitor fuel o.types in
      record o { types = types }

  -- UpdateOnDemandPricing, whose error is logged.
  unfoldable pub preload_prices : Operator V → Operator V
  preload_prices o =
      let (r, prices) =
        Pricing.update_on_demand_pricing V.billing V.region V.project_id
          (InstanceTypes.instance_type_infos (Sched V) V.marks V.types V.capacities V.ecs V.monitor
            o.types)
          o.prices in
      record o { prices = prices }

  -- The providers before the first request, with the version that was checked.
  unfoldable pub made :
      V.nodes.World → V.ecs.World → V.billing.World → Version.State V.cluster → Operator V
  made nodes ecs billing version = record {
    nodes = nodes;
    subnets = Subnet.new_default_provider V.listings V.counts V.listings.empty V.counts.empty;
    types =
        InstanceTypes.new_default_provider (Sched V) V.marks V.types V.capacities V.ecs V.monitor
          V.types.empty V.capacities.empty
          (some (new_offering_availability_cache V.marks unavailable_offering_ttl)) ecs;
    prices = Pricing.new_default_provider V.billing billing;
    version = version;
  }

  -- lo.Must0 of the first check of the version.
  unfoldable pub preloaded :
      ℕ
      → V.nodes.World
      → V.ecs.World
      → V.billing.World
      → Option (Result (Unit {0})) × Version.State V.cluster
      → Option (Operator V)
  unfolding preload_prices preload_types made
  preloaded fuel nodes ecs billing (none, version) = none
  preloaded fuel nodes ecs billing (some (err e), version) = none
  preloaded fuel nodes ecs billing (some (ok done), version) =
      some (preload_prices (preload_types fuel (made nodes ecs billing version)))

  -- NewOperator, at the states of the services; `none` stands for a panic.
  unfoldable pub new_operator :
      ℕ → V.nodes.World → V.ecs.World → V.billing.World → V.cluster.World → Option (Operator V)
  unfolding preloaded
  new_operator fuel nodes ecs billing cluster =
      if V.cluster_id == ""
      then none
      else preloaded fuel nodes ecs billing (
          Version.update_version_with_validation V.cluster (V.nodes.clock nodes)
            (Version.new_default_provider V.cluster cluster))

  -- A round of the controllers of the providers.
  unfoldable pub refresh_types : ℕ → Operator V → Operator V
  refresh_types fuel o =
      let (r, types) =
        reconcile_instance_types (Sched V) V.marks V.types V.capacities V.ecs V.monitor fuel
          o.types in
      record o { types = types }

  unfoldable pub update_prices : Operator V → Operator V
  update_prices o =
      let (r, prices) =
        reconcile_pricing (Sched V) V.marks V.types V.capacities V.ecs V.monitor V.billing V.region
          V.project_id o.types o.prices in
      record o { prices = prices }

  unfoldable pub check_version : Operator V → Operator V
  check_version o =
      let (r, version) = reconcile_version V.cluster (now V o) o.version in
      record o { version = version }

  -- The subnets that the node class controller asks for, with what the VPC API answers.
  unfoldable pub list_subnets : CceNodeClass → Result (List VpcSubnet) → Operator V → Operator V
  list_subnets nc response o =
      let (r, subnets) = Subnet.list V.listings V.counts (now V o) nc response o.subnets in
      record o { subnets = subnets }

  -- One operation of the cloud provider, one round of a controller, or a while in which time passes and
  -- CCE does whatever else it does.
  pub data Step (o : Operator V) : Operator V → Type 0 where
    listed : (nc : CceNodeClass) → Step o (list_types V nc o).1
    created :
        (nc : CceNodeClass) (claim : Claims V) (its : List (InstanceType (Sched V)))
        → Step o (create_instance V nc claim its o).1
    deleted : (id : String) → Step o (delete_instance V id o).1
    types_refreshed : (fuel : ℕ) → Step o (refresh_types fuel o)
    prices_updated : Step o (update_prices o)
    version_checked : Step o (check_version o)
    subnets_listed :
        (nc : CceNodeClass) (response : Result (List VpcSubnet))
        → Step o (list_subnets nc response o)
    waited :
        (nodes : V.nodes.World)
        → V.nodes.clock o.nodes ≤ V.nodes.clock nodes
        → Step o (record o { nodes = nodes })

  -- The states of an operator that was started.
  pub data Running : Operator V → Type 0 where
    started :
        (fuel : ℕ) (nodes : V.nodes.World) (ecs : V.ecs.World) (billing : V.billing.World)
        (cluster : V.cluster.World) (o : Operator V)
        → new_operator fuel nodes ecs billing cluster ≡ some o
        → Running o
    runs_on : {o p : Operator V} → Running o → Step o p → Running p
