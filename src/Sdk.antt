-- ===== src/Sdk.antt =====
-- pkg/huawei: the services over the clients of the Huawei Cloud SDK, each of which builds its client
-- at the first request and keeps it. The lock makes the look at the client and the building of it
-- one step.
pub mod Built
pub mod Services
mod Tests
use karpenter_provider_huawe.Base.{ℕ, Option, none, some, Result, ok, err}

-- The SDK of one service: its methods with their requests and responses, and the client, which is
-- built for a region and credentials with a configuration of HTTP.
pub record Sdk (Method : Type 0) : Type 1 where
  pub Request : Method → Type 0
  pub Response : Method → Type 0
  pub HttpConfig : Type 0
  pub default_http_config : HttpConfig
  pub Client : Type 0
  pub World : Type 0
  pub safe_build : HttpConfig → World → Result Client × World
  pub send : (m : Method) → Client → Request m → World → Result (Response m) × World

-- The methods of the interfaces of sdk.go.
pub data CceMethod : Type 0 where
  show_cluster : CceMethod
  create_node : CceMethod
  delete_node : CceMethod
  list_nodes : CceMethod
  show_node : CceMethod
  show_job : CceMethod

pub data EcsMethod : Type 0 where
  list_servers_details : EcsMethod
  batch_create_server_tags : EcsMethod
  list_flavors : EcsMethod
  list_server_az_info : EcsMethod

pub data VpcMethod : Type 0 where
  list_subnets : VpcMethod
  list_security_groups : VpcMethod

pub data BssMethod : Type 0 where
  list_on_demand_resource_ratings : BssMethod

module _ {Method : Type 0} (K : Sdk Method) where
  -- A service: its client is nil until the first request.
  pub record Service : Type 0 where
    pub client : Option K.Client
    pub http_config : K.HttpConfig
    pub world : K.World

  abbrev pub or_default : Option K.HttpConfig → K.HttpConfig
  or_default none = K.default_http_config
  or_default (some config) = config

  -- NewCCEService, NewECSService, NewVPCService and NewBSSService
  unfoldable pub new_service : Option K.HttpConfig → K.World → Service
  new_service config w = record { client = none; http_config = or_default config; world = w }

  abbrev pub keep_client : Service → Result K.Client × K.World → Result K.Client × Service
  keep_client s (err e, w) = (err e, record s { world = w })
  keep_client s (ok client, w) = (ok client, record s { client = some client; world = w })

  abbrev pub client_or_build : Option K.Client → Service → Result K.Client × Service
  client_or_build (some client) s = (ok client, s)
  client_or_build none s = keep_client s (K.safe_build s.http_config s.world)

  -- getClient
  unfoldable pub get_client : Service → Result K.Client × Service
  get_client s = client_or_build s.client s

  unfoldable pub sent :
      (m : Method) → K.Request m → Result K.Client × Service → Result (K.Response m) × Service
  sent m request (err e, s) = (err e, s)
  sent m request (ok client, s) =
      let (r, w) = K.send m client request s.world in (r, record s { world = w })

  -- Any method of a service: they differ in the request and the response.
  unfoldable pub call : (m : Method) → K.Request m → Service → Result (K.Response m) × Service
  unfolding sent get_client
  call m request s = sent m request (get_client s)
