-- ===== src/Operator/Clients.antt =====
-- What NewOperator of pkg/operator/operator.go is given, or makes with the packages that it imports:
-- the clients of the cloud's services, the caches, and Karpenter's scheduling.
use karpenter_provider_huawe.Base.{ℕ, ◌≤◌, String, List, Option, Result}
use karpenter_provider_huawe.Base.Int.{ℤ}
use karpenter_provider_huawe.Apis.{CceNodeClass}
use karpenter_provider_huawe.Ext.Billing.{Billing}
use karpenter_provider_huawe.Ext.Ecs.{EcsApi}
use karpenter_provider_huawe.Ext.GoCache.{GoCache}
use karpenter_provider_huawe.Ext.Kubernetes.{Cluster}
use karpenter_provider_huawe.Ext.Scheduling.{Float64, Scheduling, InstanceType}
use karpenter_provider_huawe.Subnet.{VpcSubnet}
use karpenter_provider_huawe.Instance.Kubelet.{Quantities}
use karpenter_provider_huawe.Instance.NodeSpec.{NodeSpec}
use karpenter_provider_huawe.Instance.Queries.{CceNode, ServerTag, NodeApi}
use karpenter_provider_huawe.Instance.Create.{CceApi, NodeResponse}
use karpenter_provider_huawe.InstanceTypes.{ChangeMonitor, Resolver}

-- The services of CCE and ECS that the instance provider calls, which move on with every change.
pub record NodeService : Type 1 where
  pub World : Type 0
  pub clock : World → ℕ
  pub create_node : String → NodeSpec → World → Result (Option NodeResponse) × World
  pub clock-create_node :
      (cluster_id : String) (spec : NodeSpec) (w : World)
      → clock w ≤ clock (create_node cluster_id spec w).1
  pub show_node : String → String → World → Result (Option CceNode)
  pub list_nodes : String → World → Result (Option (List CceNode))
  pub delete_node : String → String → World → Result (Unit {0}) × World
  pub batch_create_server_tags : String → List ServerTag → World → Result (Unit {0}) × World

abbrev pub create_api : NodeService → CceApi
create_api N = record {
  World = N.World;
  clock = N.clock;
  create_node = N.create_node;
  clock-create_node = N.clock-create_node;
}

abbrev pub query_api : NodeService → NodeApi
query_api N = record {
  World = N.World;
  show_node = N.show_node;
  list_nodes = N.list_nodes;
  delete_node = N.delete_node;
  batch_create_server_tags = N.batch_create_server_tags;
}

-- Go has one float64: the prices of the billing service are those of offerings.
abbrev pub with_float : Float64 → Scheduling → Scheduling
with_float f S = record S { float = f }

pub record Services : Type 1 where
  pub region : String
  pub cluster_id : String
  pub project_id : String
  pub nodes : NodeService
  pub billing : Billing
  pub ecs : EcsApi
  pub cluster : Cluster
  pub scheduling : Scheduling
  pub quantities : Quantities
  pub monitor : ChangeMonitor
  pub marks : GoCache (Unit {0})
  pub types : GoCache (List (InstanceType (with_float billing.float scheduling)))
  pub capacities : GoCache ℕ
  pub listings : GoCache (List VpcSubnet)
  pub counts : GoCache ℤ
  -- The resolver of instance types, made for the region.
  pub resolver : Resolver (with_float billing.float scheduling) CceNodeClass
