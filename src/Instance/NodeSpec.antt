-- ===== src/Instance/NodeSpec.antt =====
-- The node specification of pkg/providers/instance/instance.go that is sent with CreateNode.
pub mod Taints
pub mod Effective
use karpenter_provider_huawe.Base.{
  ℕ, String, ◌+str◌, Bool, true, false, List, [], ◌∷◌, ◌++◌, map, Option, none, some, ◌==◌, ◌&&◌,
  not, if◌then◌else◌, Result, ok, err, Error, ◌>>=◌, reject, is_empty,
}
use karpenter_provider_huawe.Base.Int.{ℤ, pos, leb_ℤ}
use karpenter_provider_huawe.Base.Decimal.{decimal_int}
use karpenter_provider_huawe.Base.Maps.{Map, insert}
use karpenter_provider_huawe.Apis.{
  BlockDevice, BlockDeviceMappings, Login, UserPassword, RuntimeConfiguration, CceNodeClass,
  default_kubernetes_volume_size_gib,
}
use karpenter_provider_huawe.Instance.Kubelet.{
  Quantities, NodeExtendParam, resolve_create_node_kubelet,
}
use mathlib.Core.Option

pub record Volume : Type 0 where
  pub size : ℤ
  pub volumetype : String
  pub iops : Option ℤ
  pub throughput : Option ℤ

unfoldable pub to_cce_volume : BlockDevice → Volume
to_cce_volume d = record {
  size = if leb_ℤ d.volume_size (pos 0) then pos 40 else d.volume_size;
  volumetype = if d.volume_type == "" then "SSD" else d.volume_type;
  iops = d.iops;
  throughput = d.throughput;
}

abbrev pub default_volume : String → Volume
default_volume root_volume_type = record {
  size = default_kubernetes_volume_size_gib;
  volumetype = root_volume_type;
  iops = none;
  throughput = none;
}

-- The volume for Kubernetes: the one given, or the default of the root's type.
unfoldable pub managed_volume : Option BlockDevice → String → Volume
unfolding to_cce_volume
managed_volume none root_volume_type = default_volume root_volume_type
managed_volume (some d) root_volume_type = to_cce_volume d

unfoldable pub resolve_data_volumes : BlockDeviceMappings → String → Option (List Volume)
unfolding managed_volume to_cce_volume
resolve_data_volumes m root_volume_type =
    some (managed_volume m.k8s root_volume_type ∷ map to_cce_volume m.users)

pub record MatchLabels : Type 0 where
  pub size : String
  pub volume_type : String
  pub count : String
  pub iops : Option String
  pub throughput : Option String

pub record StorageSelector : Type 0 where
  pub name : String
  pub storage_type : String
  pub match_labels : MatchLabels

pub record VirtualSpace : Type 0 where
  pub name : String
  pub size : String
  pub lv_type : String

pub record StorageGroup : Type 0 where
  pub name : String
  pub cce_managed : Bool
  pub selector_names : List String
  pub virtual_spaces : List VirtualSpace

pub record Storage : Type 0 where
  pub selectors : List StorageSelector
  pub groups : List StorageGroup

abbrev pub storage_group : StorageGroup
storage_group = record {
  name = "vgpaas";
  cce_managed = true;
  selector_names = "k8s-data" ∷ [];
  virtual_spaces =
      record { name = "runtime"; size = "90%"; lv_type = "linear" }
      ∷ record { name = "kubernetes"; size = "10%"; lv_type = "linear" }
      ∷ [];
}

unfoldable pub resolve_storage : BlockDeviceMappings → String → Storage
unfolding managed_volume decimal_int
resolve_storage m root_volume_type =
    let v = managed_volume m.k8s root_volume_type in
    record {
      selectors =
          record {
            name = "k8s-data";
            storage_type = "evs";
            match_labels = record {
              size = decimal_int v.size;
              volume_type = v.volumetype;
              count = "1";
              iops = Option.map decimal_int v.iops;
              throughput = Option.map decimal_int v.throughput;
            };
          }
          ∷ [];
      groups = storage_group ∷ [];
    }

pub data CceLogin : Type 0 where
  ssh_login : String → CceLogin
  password_login : (username password : String) → CceLogin

abbrev pub password_of : Option UserPassword → Option CceLogin
password_of none = none
password_of (some u) =
    if u.password == ""
    then none
    else some (password_login (if u.username == "" then "root" else u.username) u.password)

unfoldable pub resolve_login : Option Login → Option CceLogin
resolve_login none = none
resolve_login (some l) =
    if not (l.ssh_key == "") then some (ssh_login l.ssh_key) else password_of l.user_password

pub data RuntimeName : Type 0 where
  containerd docker : RuntimeName

unfoldable pub resolve_runtime : Option RuntimeConfiguration → Option RuntimeName
resolve_runtime none = none
resolve_runtime (some r) =
    if r.type == "" then none else if r.type == "docker" then some docker else some containerd

unfoldable pub resolve_ecs_group_id : Option String → Option String
resolve_ecs_group_id none = none
resolve_ecs_group_id (some id) = if not (id == "") then some id else none

-- corev1.Taint; an effect is a text, as in Kubernetes.
pub record Taint : Type 0 where
  pub key : String
  pub value : String
  pub effect : String

abbrev pub unregistered_no_execute_taint : Taint
unregistered_no_execute_taint = record {
  key = "karpenter.sh/unregistered";
  value = "";
  effect = "NoExecute";
}

pub data CceTaintEffect : Type 0 where
  no_schedule prefer_no_schedule no_execute : CceTaintEffect

pub record CceTaint : Type 0 where
  pub key : String
  pub value : Option String
  pub effect : CceTaintEffect

unfoldable pub to_cce_taint_effect : String → CceTaintEffect
to_cce_taint_effect effect =
    if effect == "PreferNoSchedule"
    then prefer_no_schedule
    else if effect == "NoExecute"
    then no_execute
    else no_schedule

-- t.MatchTaint(other): the same key and effect.
abbrev pub match_taint : Taint → Taint → Bool
match_taint t other = (t.key == other.key) && (t.effect == other.effect)

abbrev pub network_unavailable_taint : Taint
network_unavailable_taint = record {
  key = "node.kubernetes.io/network-unavailable";
  value = "";
  effect = "NoSchedule";
}

abbrev pub taint_key : Taint → String
taint_key t = t.key +str "/" +str t.effect

-- deduped[key] = t, where the unregistered taint is put in as Karpenter defines it.
unfoldable pub dedupe : List Taint → Map Taint → Map Taint
unfolding insert
dedupe [] deduped = deduped
dedupe (t ∷ ts) deduped = dedupe ts (
    insert (taint_key t)
      (if taint_key t == taint_key unregistered_no_execute_taint
        then unregistered_no_execute_taint
        else t)
      deduped)

unfoldable pub to_cce_taint : Taint → CceTaint
unfolding to_cce_taint_effect
to_cce_taint t = record {
  key = t.key;
  value = if not (t.value == "") then some t.value else none;
  effect = to_cce_taint_effect t.effect;
}

-- The node claim, as far as CreateNode needs it. `requirements` are its scheduling requirements and
-- `instance_type_values` the values of the first one for the instance type, if there is one.
pub record NodeClaim (Requirements : Type 0) : Type 0 where
  pub uid : String
  pub startup_taints : List Taint
  pub taints : List Taint
  pub requirements : Requirements
  pub instance_type_values : Option (List String)

abbrev pub or_nil {ℓ} : {A : Type ℓ} → List A → Option (List A)
or_nil [] = none
or_nil (x ∷ xs) = some (x ∷ xs)

-- The taints in the order in which they are put in, a taint of the claim last.
unfoldable pub claim_taints : List Taint → List Taint → List Taint
claim_taints startup taints =
    reject (λ t. match_taint t network_unavailable_taint)
      (unregistered_no_execute_taint ∷ startup ++ taints)

unfoldable pub to_cce_taints : List Taint → List Taint → Option (List CceTaint)
unfolding claim_taints dedupe to_cce_taint
to_cce_taints startup taints =
    or_nil (map (λ e. to_cce_taint e.1) (dedupe (claim_taints startup taints) []))

pub record NodeSpec : Type 0 where
  pub flavor : String
  pub az : String
  pub os : Option String
  pub count : ℕ
  pub root_volume : Volume
  pub data_volumes : Option (List Volume)
  pub storage : Storage
  pub login : Option CceLogin
  pub runtime : Option RuntimeName
  pub extend_param : Option NodeExtendParam
  pub ecs_group_id : Option String
  pub offload_node : Bool
  pub subnet_id : String
  pub taints : Option (List CceTaint)
  pub k8s_tags : Map String

-- The tags that are copied, with the uid of the claim.
abbrev pub put_all : Map String → Map String → Map String
put_all [] m = m
put_all ((k, v) ∷ rest) m = put_all rest (insert k v m)

-- nodeSpecForCandidate, for a candidate of this flavor, zone and subnet.
unfoldable pub node_spec_for_candidate :
    (Q : Quantities) {R : Type 0}
    → CceNodeClass
    → NodeClaim R
    → Map String
    → String
    → String
    → String
    → String
    → Result NodeSpec
unfolding to_cce_volume resolve_data_volumes resolve_storage resolve_login resolve_runtime
    resolve_ecs_group_id resolve_create_node_kubelet to_cce_taints insert
node_spec_for_candidate Q c claim tags flavor zone subnet_id os_alias = do
  extend_param ← resolve_create_node_kubelet Q c.spec.kubelet
  let mappings = c.spec.block_device_mappings
  let root = to_cce_volume mappings.root
  ok (record {
    flavor = flavor;
    az = zone;
    os = if not (os_alias == "") then some os_alias else none;
    count = 1;
    root_volume = root;
    data_volumes = resolve_data_volumes mappings root.volumetype;
    storage = resolve_storage mappings root.volumetype;
    login = resolve_login (some c.spec.login);
    runtime = resolve_runtime c.spec.runtime_configuration;
    extend_param = extend_param;
    ecs_group_id = resolve_ecs_group_id c.spec.ecs_group_id;
    offload_node = true;
    subnet_id = subnet_id;
    taints = to_cce_taints claim.startup_taints claim.taints;
    k8s_tags = insert "karpenter.k8s.huawei/nodeclaim-uid" claim.uid (put_all tags []);
  })
