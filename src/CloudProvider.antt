-- ===== src/CloudProvider.antt =====
-- pkg/cloudprovider/cloudprovider.go: Karpenter's cloud provider over the providers of instances and
-- of instance types, which are interfaces here as they are there.
pub mod Calls
pub mod Creation
pub mod Undrifted
mod Tests
use karpenter_provider_huawe.Base.{
  String, Bool, true, false, List, [], ◌∷◌, Option, none, some, ◌==◌, ◌||◌, not, if◌then◌else◌, eqb,
  find, is_empty, Result, ok, err, Error, plain, wrapped, not_found, insufficient_capacity,
  node_class_not_ready, create_error, fail_if, ◌>>=◌, ◌>>◌, wrap_error,
}
use karpenter_provider_huawe.Base.Maps.{Map, lookup, insert}
use karpenter_provider_huawe.Apis.{
  CceNodeClass, resolve_ims_for_create_node, validate_for_create_node,
}
use karpenter_provider_huawe.Ext.Scheduling.{
  Scheduling, InstanceType, capacity_type_label_key, capacity_type_on_demand, label_topology_zone,
  label_instance_type_stable,
}
use karpenter_provider_huawe.Instance.Kubelet.{Quantities, validate_kubelet_for_create_node}
use karpenter_provider_huawe.Instance.Queries.{Instance}
use karpenter_provider_huawe.Drift.{
  HashInput, hash, annotation_hash, annotation_hash_version, hash_version, Claim, DriftReason,
  no_drift, is_node_class_drifted,
}

abbrev pub annotation_node_id : String
annotation_node_id = "karpenter.k8s.huawei/cce-node-id"

abbrev pub annotation_instance_id : String
annotation_instance_id = "karpenter.k8s.huawei/ecs-server-id"

-- corev1's kubernetes.io/arch, kubernetes.io/os and topology.kubernetes.io/region
abbrev pub resolved_node_claim_label_keys : List String
resolved_node_claim_label_keys =
    "kubernetes.io/arch" ∷ "kubernetes.io/os" ∷ "topology.kubernetes.io/region" ∷ []

-- errors.IsNotFound, IsInsufficientCapacityError and IsNodeClassNotReadyError, through what %w wraps
unfoldable pub is_not_found : Error → Bool
is_not_found not_found = true
is_not_found (wrapped msg e) = is_not_found e
is_not_found _ = false

unfoldable pub is_insufficient_capacity : Error → Bool
is_insufficient_capacity (insufficient_capacity e) = true
is_insufficient_capacity (wrapped msg e) = is_insufficient_capacity e
is_insufficient_capacity _ = false

unfoldable pub is_node_class_not_ready : Error → Bool
is_node_class_not_ready (node_class_not_ready e) = true
is_node_class_not_ready (wrapped msg e) = is_node_class_not_ready e
is_node_class_not_ready _ = false

-- A node class that is being deleted counts as not found.
abbrev pub if_not_deleting : CceNodeClass → Result CceNodeClass
if_not_deleting nc = if nc.deleting then err not_found else ok nc

-- resolveNodeClassFromNodeClaim and resolveNodeClassFromNodePool, by the name of the class.
unfoldable pub resolve_node_class : (String → Result CceNodeClass) → String → Result CceNodeClass
resolve_node_class kube_get name = kube_get name >>= if_not_deleting

-- NewCreateError of what %w wraps.
abbrev pub as_create_error {ℓ} : {A : Type ℓ} → String → String → String → Result A → Result A
as_create_error format reason message (err e) = err (create_error (wrapped format e) reason message)
as_create_error format reason message (ok a) = ok a

-- Capacity that is lacking and a class that is not ready are passed on as they are.
unfoldable pub creation_failure : Error → Error
unfolding is_insufficient_capacity is_node_class_not_ready
creation_failure e =
    if is_insufficient_capacity e || is_node_class_not_ready e
    then e
    else create_error (wrapped "creating instance, %w" e) "InstanceCreationFailed"
        "Error creating instance"

-- The claim that Create returns; its capacity and allocatable are those of the instance type.
pub record CreatedClaim (S : Scheduling) : Type 0 where
  pub labels : Map String
  pub annotations : Map String
  pub provider_id : String
  pub image_id : String
  pub instance_type : InstanceType S

module _ (S : Scheduling) where
  abbrev pub first_value : List String → Option String
  first_value [] = none
  first_value (v ∷ vs) = some v

  abbrev pub if_single : Option S.Requirement → Option String
  if_single none = none
  if_single (some r) = if eqb (S.len r) 1 then first_value (S.values r) else none

  -- singleValueRequirement; requirements here have the operator In.
  unfoldable pub single_value_requirement : S.Requirements → String → Option String
  single_value_requirement reqs key = if_single (S.requirement key reqs)

  abbrev pub put_label : String → Option String → Map String → Map String
  unfolding insert
  put_label key none labels = labels
  put_label key (some v) labels = insert key v labels

  unfoldable pub put_resolved_labels : S.Requirements → List String → Map String → Map String
  unfolding put_label single_value_requirement
  put_resolved_labels reqs [] labels = labels
  put_resolved_labels reqs (key ∷ keys) labels =
      put_resolved_labels reqs keys (put_label key (single_value_requirement reqs key) labels)

  unfoldable pub resolved_node_claim_labels : InstanceType S → Instance → Map String
  unfolding put_resolved_labels
  resolved_node_claim_labels it i =
      put_resolved_labels it.requirements resolved_node_claim_label_keys (
        (label_instance_type_stable, i.flavor)
        ∷ (label_topology_zone, i.zone)
        ∷ (capacity_type_label_key, capacity_type_on_demand)
        ∷ [])

  unfoldable pub claim_annotations : (HashInput → String) → CceNodeClass → Instance → Map String
  unfolding hash
  claim_annotations digest nc i =
      (annotation_node_id, i.node_id)
      ∷ (annotation_instance_id, i.server_id)
      ∷ (annotation_hash, hash digest nc.spec)
      ∷ (annotation_hash_version, hash_version)
      ∷ []

  abbrev pub claim_with :
      (HashInput → String)
      → String
      → CceNodeClass
      → Instance
      → Option (InstanceType S)
      → Result (CreatedClaim S)
  unfolding claim_annotations resolved_node_claim_labels
  claim_with digest image_id nc i none = err (
      create_error (plain "selected instance type %q not found") "InstanceTypeNotFound"
        "Selected instance type not found")
  claim_with digest image_id nc i (some it) = ok (record {
    labels = resolved_node_claim_labels it i;
    annotations = claim_annotations digest nc i;
    provider_id = i.node_id;
    image_id = image_id;
    instance_type = it;
  })

  -- What Create returns for the instance.
  unfoldable pub claim_of :
      (HashInput → String)
      → String
      → CceNodeClass
      → List (InstanceType S)
      → Instance
      → Result (CreatedClaim S)
  unfolding claim_with
  claim_of digest image_id nc its i =
      if i.node_id == ""
      then err (
          create_error (plain "CreateNode succeeded but nodeID is empty")
            "ProviderIDResolutionFailed" "Error resolving providerID")
      else claim_with digest image_id nc i (find (λ it. it.name == i.flavor) its)
