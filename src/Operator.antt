-- ===== src/Operator.antt =====
-- pkg/operator/operator.go and cmd/controller/main.go: the providers that NewOperator makes and puts
-- together, what the cloud provider and the controllers do with them, and their states after any
-- sequence of such operations.
pub mod Clients
pub mod Options
pub mod Run
pub mod Samples
mod Tests
pub mod Launches
pub mod SoldOut
pub mod Marks
pub mod Prices
use karpenter_provider_huawe.Base.{
  ℕ, ◌*◌, ◌^◌, String, List, [], ◌∷◌, map, Option, none, some, Result, ok, err, plain, ◌>>=◌,
}
use karpenter_provider_huawe.Apis.{CceNodeClass}
use karpenter_provider_huawe.Ext.Scheduling.{Scheduling, InstanceType}
use karpenter_provider_huawe.OfferingCache.{new_offering_availability_cache}
use karpenter_provider_huawe.Subnet
use karpenter_provider_huawe.Subnet.{VpcSubnet}
use karpenter_provider_huawe.Instance.NodeSpec.{NodeClaim}
use karpenter_provider_huawe.Instance.Queries
use karpenter_provider_huawe.Instance.Queries.{Instance}
use karpenter_provider_huawe.Instance.Create
use karpenter_provider_huawe.InstanceTypes
use karpenter_provider_huawe.InstanceTypes.{PriceOf}
use karpenter_provider_huawe.InstanceTypes.Listing.{with_marks}
use karpenter_provider_huawe.InstanceTypes.Serve
use karpenter_provider_huawe.InstanceTypes.Refresh
use karpenter_provider_huawe.Pricing
use karpenter_provider_huawe.Version
use karpenter_provider_huawe.CloudProvider.Calls.{Providers}
use karpenter_provider_huawe.Operator.Clients.{Services, create_api, query_api, with_float}

-- In nanoseconds.
abbrev pub unavailable_offering_ttl : ℕ
unavailable_offering_ttl = 5 * 60 * 10 ^ 9

-- What a caller sees of a panic: the controllers' runtime recovers it into an error.
abbrev pub recovered : Option (Result Instance) → Result Instance
recovered none = err (plain "panic: %v [recovered]")
recovered (some r) = r

module _ (V : Services) where
  abbrev pub Sched : Scheduling
  Sched = with_float V.billing.float V.scheduling

  abbrev pub Types : Type 0
  Types = InstanceTypes.State Sched V.marks V.types V.capacities V.ecs V.monitor

  abbrev pub Claims : Type 0
  Claims = NodeClaim Sched.Requirements

  -- The providers. The cache of unavailable offerings, which the instance provider and the instance
  -- type provider share, stands in the state of the second.
  pub record Operator : Type 0 where
    pub nodes : V.nodes.World
    pub subnets : Subnet.State V.listings V.counts
    pub types : Types
    pub prices : Pricing.State V.billing
    pub version : Version.State V.cluster

  abbrev pub now : Operator → ℕ
  now o = V.nodes.clock o.nodes

  -- The instance type provider asks the pricing provider for prices.
  abbrev pub price_of : Operator → PriceOf Sched V.marks V.types V.capacities V.ecs V.monitor
  price_of o = some (λ name. Pricing.on_demand_price V.billing name o.prices)

  unfoldable pub list_types :
      CceNodeClass → Operator → Result (List (InstanceType Sched)) × Operator
  list_types nc o =
      let (r, types) =
        Serve.list Sched V.marks V.types V.capacities V.ecs V.monitor (some V.resolver) (price_of o)
          (now o) nc o.types in
      (r, record o { types = types })

  abbrev pub launch_env :
      Operator → Create.Env Sched (create_api V.nodes) V.marks V.quantities V.listings V.counts
  launch_env o = record {
    session = record { world = o.nodes; offerings = o.types.offering_availability_cache };
    provider = o.subnets;
  }

  unfoldable pub create_instance :
      CceNodeClass → Claims → List (InstanceType Sched) → Operator → Result Instance × Operator
  create_instance nc claim its o =
      let (r, env) =
        Create.create Sched (create_api V.nodes) V.marks V.quantities V.listings V.counts
          V.cluster_id nc claim [] its (launch_env o) in
      (
        recovered r,
        record o {
          nodes = env.session.world;
          subnets = env.provider;
          types =
              with_marks Sched V.marks V.types V.capacities V.ecs V.monitor (price_of o)
                env.session.offerings o.types;
        },
      )

  unfoldable pub delete_instance : String → Operator → Result (Unit {0}) × Operator
  delete_instance id o =
      let (r, w) = Queries.delete (query_api V.nodes) V.cluster_id id o.nodes in
      (r, record o { nodes = w })

  -- The providers as the cloud provider has them.
  abbrev pub providers : Providers Sched Claims
  providers = record {
    World = Operator;
    list_types = list_types;
    create_instance = create_instance;
    get_instance = λ id o. Queries.get (query_api V.nodes) V.cluster_id id o.nodes;
    list_instances =
        λ o. Queries.list_nodes (query_api V.nodes) V.cluster_id o.nodes >>= λ is. ok (map some is);
    delete_instance = delete_instance;
  }
