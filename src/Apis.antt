-- ===== src/Apis.antt =====
-- pkg/apis/v1alpha1: the CCENodeClass resource, and what the provider checks and derives from its
-- spec. An optional field is an Option, an int32 an integer of ℤ.
pub mod Samples
use karpenter_provider_huawe.Base.{
  is_set, ℕ, String, Bool, true, false, List, [], map, Option, none, some, ◌==◌, not, if◌then◌else◌,
  Result, ok, err, plain, fail_if, ◌>>◌, any,
}
use karpenter_provider_huawe.Base.Int.{ℤ, pos, ltb_ℤ, leb_ℤ}
use karpenter_provider_huawe.Base.Maps.{Map}
use mathlib.Core.Option

pub record SubnetSelectorTerm : Type 0 where
  pub id : String
  pub name : String

pub record BlockDevice : Type 0 where
  pub volume_size : ℤ
  pub volume_type : String
  pub iops : Option ℤ
  pub throughput : Option ℤ

pub record BlockDeviceMappings : Type 0 where
  pub k8s : Option BlockDevice
  pub root : BlockDevice
  pub users : List BlockDevice

pub record RuntimeConfiguration : Type 0 where
  pub type : String

pub record UserPassword : Type 0 where
  pub username : String
  pub password : String

pub record Login : Type 0 where
  pub user_password : Option UserPassword
  pub ssh_key : String

pub record KubeletConfiguration : Type 0 where
  pub max_pods : Option ℤ
  pub system_reserved : Map String
  pub kube_reserved : Map String

pub record CceNodeClassSpec : Type 0 where
  pub subnet_selector_terms : List SubnetSelectorTerm
  pub kubelet : Option KubeletConfiguration
  pub ecs_group_id : Option String
  pub ims_family : String
  pub block_device_mappings : BlockDeviceMappings
  pub runtime_configuration : Option RuntimeConfiguration
  pub login : Login

-- Subnet of ccenodeclass_status.go.
pub record Subnet : Type 0 where
  pub id : String

-- The resource with the metadata that the program reads: `deleting` says that DeletionTimestamp is
-- set, `subnets_ready` that the condition SubnetsReady is true.
pub record CceNodeClass : Type 0 where
  pub name : String
  pub uid : String
  pub generation : ℕ
  pub deleting : Bool
  pub finalizers : List String
  pub annotations : Map String
  pub spec : CceNodeClassSpec
  pub status_subnets : List Subnet
  pub subnets_ready : Bool

abbrev pub min_root_volume_size_gib : ℤ
min_root_volume_size_gib = pos 40

abbrev pub min_kubernetes_data_volume_size_gib : ℤ
min_kubernetes_data_volume_size_gib = pos 20

abbrev pub min_user_data_volume_size_gib : ℤ
min_user_data_volume_size_gib = pos 10

abbrev pub default_kubernetes_volume_size_gib : ℤ
default_kubernetes_volume_size_gib = pos 100

unfoldable pub resolve_ims_for_create_node : Option CceNodeClassSpec → Result String
resolve_ims_for_create_node none = err (plain "nodeClass.spec is nil")
resolve_ims_for_create_node (some s) =
    if s.ims_family == ""
    then err (plain "nodeClass.spec.imsSelector.imsFamily is required")
    else ok s.ims_family

abbrev has_password : Option UserPassword → Bool
has_password none = true
has_password (some u) = not (u.password == "")

abbrev too_small : ℤ → Option BlockDevice → Bool
too_small least none = false
too_small least (some d) = ltb_ℤ d.volume_size least

abbrev same_bool : Bool → Bool → Bool
same_bool a b = if a then b else not b

unfoldable pub validate_for_create_node : Option CceNodeClassSpec → Result (Unit {0})
validate_for_create_node none = err (plain "nodeClass.spec is nil")
validate_for_create_node (some s) = do
  fail_if (same_bool (is_set s.login.user_password) (not (s.login.ssh_key == "")))
      (plain "exactly one of login.userPassword or login.sshKey must be set")
  fail_if (not (has_password s.login.user_password))
      (plain "login.userPassword.password is required")
  fail_if (ltb_ℤ s.block_device_mappings.root.volume_size min_root_volume_size_gib)
      (plain "root.volumeSize must be at least %dGi")
  fail_if (too_small min_kubernetes_data_volume_size_gib s.block_device_mappings.k8s)
      (plain "k8s.volumeSize must be at least %dGi")
  fail_if
      (any (λ u. ltb_ℤ u.volume_size min_user_data_volume_size_gib) s.block_device_mappings.users)
      (plain "users[%d].volumeSize must be at least %dGi")

-- The normalized values that the hash of a node class is taken over.
pub record NormalizedVolume : Type 0 where
  pub size : ℤ
  pub volume_type : String
  pub iops : ℤ
  pub throughput : ℤ

pub record NormalizedBlockDeviceMappings : Type 0 where
  pub root : NormalizedVolume
  pub k8s : Option NormalizedVolume
  pub users : List NormalizedVolume

pub record NormalizedLogin : Type 0 where
  pub user_password : Option UserPassword
  pub ssh_key : String

-- lo.FromPtrOr(p, 0)
abbrev pub or_zero : Option ℤ → ℤ
or_zero none = pos 0
or_zero (some z) = z

unfoldable pub normalize_block_device : Option BlockDevice → NormalizedVolume
normalize_block_device none = record {
  size = pos 0;
  volume_type = "";
  iops = pos 0;
  throughput = pos 0;
}
normalize_block_device (some d) = record {
  size = if leb_ℤ d.volume_size (pos 0) then pos 40 else d.volume_size;
  volume_type = if d.volume_type == "" then "SSD" else d.volume_type;
  iops = or_zero d.iops;
  throughput = or_zero d.throughput;
}

unfoldable pub normalized_block_device_mappings :
    Option CceNodeClassSpec → NormalizedBlockDeviceMappings
normalized_block_device_mappings none = record {
  root = record { size = pos 0; volume_type = ""; iops = pos 0; throughput = pos 0 };
  k8s = none;
  users = [];
}
normalized_block_device_mappings (some s) = record {
  root = normalize_block_device (some s.block_device_mappings.root);
  k8s = Option.map (λ d. normalize_block_device (some d)) s.block_device_mappings.k8s;
  users = map (λ d. normalize_block_device (some d)) s.block_device_mappings.users;
}

unfoldable pub normalized_runtime_type : Option RuntimeConfiguration → String
normalized_runtime_type none = "containerd"
normalized_runtime_type (some r) = if r.type == "" then "containerd" else r.type

abbrev pub or_root : String → String
or_root username = if username == "" then "root" else username

unfoldable pub normalized_login : Option CceNodeClassSpec → NormalizedLogin
normalized_login none = record { user_password = none; ssh_key = "" }
normalized_login (some s) =
    if not (s.login.ssh_key == "")
    then record { user_password = none; ssh_key = s.login.ssh_key }
    else record {
      user_password =
          Option.map (λ (u : UserPassword). record u { username = or_root u.username })
            s.login.user_password;
      ssh_key = "";
    }
