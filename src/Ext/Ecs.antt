-- ===== src/Ext/Ecs.antt =====
-- What the program reads of the models of the ECS SDK.
use karpenter_provider_huawe.Base.{ℕ, String, List, Option, Result}

pub record FlavorExtraSpec : Type 0 where
  pub cond_operation_status : Option String
  pub cond_operation_az : Option String
  pub ecs_instance_architecture : Option String
  pub quota_sub_network_interface_max_num : Option String

-- The memory in MiB; it is an int32 that is not negative.
pub record Flavor : Type 0 where
  pub id : String
  pub name : String
  pub vcpus : String
  pub ram : ℕ
  pub os_extra_specs : Option FlavorExtraSpec

-- The calls of the ECS SDK; a response whose list is nil is `none`.
pub record EcsApi : Type 1 where
  pub World : Type 0
  -- ListFlavors with a limit and a marker.
  pub list_flavors : ℕ → Option String → World → Result (Option (List Flavor)) × World
  -- ListServerAzInfo, as the ids of the zones.
  pub list_server_az_info : World → Result (Option (List String)) × World
