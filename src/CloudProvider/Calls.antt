-- ===== src/CloudProvider/Calls.antt =====
-- The methods that Karpenter calls of pkg/cloudprovider/cloudprovider.go: Create, Delete, Get, List,
-- GetInstanceTypes and IsDrifted.
use karpenter_provider_huawe.Base.{
  String, Bool, List, [], ◌∷◌, ◌++◌, Option, none, some, ◌==◌, ◌||◌, not, if◌then◌else◌, is_empty,
  Result, ok, err, plain, wrapped, node_class_not_ready, create_error, fail_if, ◌>>=◌, ◌>>◌,
}
use karpenter_provider_huawe.Base.Maps.{Map, lookup}
use karpenter_provider_huawe.Apis.{
  CceNodeClass, resolve_ims_for_create_node, validate_for_create_node,
}
use karpenter_provider_huawe.Ext.Scheduling.{Scheduling, InstanceType}
use karpenter_provider_huawe.Instance.Kubelet.{Quantities, validate_kubelet_for_create_node}
use karpenter_provider_huawe.Instance.Queries.{Instance}
use karpenter_provider_huawe.Drift.{HashInput, Claim, DriftReason, no_drift, is_node_class_drifted}
use karpenter_provider_huawe.CloudProvider.{
  is_not_found, resolve_node_class, as_create_error, CreatedClaim, claim_of, creation_failure,
}

-- The providers, for the claims `C` that an instance is created for; a nil instance is `none`.
pub record Providers (S : Scheduling) (C : Type 0) : Type 1 where
  pub World : Type 0
  pub list_types : CceNodeClass → World → Result (List (InstanceType S)) × World
  pub create_instance : CceNodeClass → C → List (InstanceType S) → World → Result Instance × World
  pub get_instance : String → World → Result Instance
  pub list_instances : World → Result (List (Option Instance))
  pub delete_instance : String → World → Result (Unit {0}) × World

-- The name of the node pool's label.
abbrev pub node_pool_label_key : String
node_pool_label_key = "karpenter.sh/nodepool"

module _ (S : Scheduling) (Q : Quantities) (digest : HashInput → String) where
  -- The checks of Create; they give the image id.
  unfoldable pub check_node_class : CceNodeClass → Result String
  unfolding resolve_ims_for_create_node validate_for_create_node validate_kubelet_for_create_node
  check_node_class nc = do
    fail_if (not nc.subnets_ready || is_empty nc.status_subnets)
        (node_class_not_ready (plain "nodeclass subnets not ready: %s"))
    image_id ←
        as_create_error "resolving nodeclass imsSelector, %w" "InvalidNodeClass"
          "Invalid NodeClass imsSelector" (resolve_ims_for_create_node (some nc.spec))
    as_create_error "validating nodeclass, %w" "InvalidNodeClass" "Invalid NodeClass spec"
        (validate_for_create_node (some nc.spec))
    as_create_error "validating nodeclass kubelet, %w" "InvalidNodeClass"
        "Invalid NodeClass kubelet" (validate_kubelet_for_create_node Q nc.spec.kubelet)
    ok image_id

  -- `configured` says whether there is an instance provider.
  module _ {C : Type 0} (P : Providers S C) (configured : Bool)
      (kube_get : String → Result CceNodeClass) where
    -- The world of the providers, and the reasons of the events published.
    pub record Env : Type 0 where
      pub world : P.World
      pub events : List String

    abbrev pub publish : Env → Env
    publish env = record env { events = env.events ++ "NodeClassNotFound" ∷ [] }

    unfoldable pub with_instance :
        String
        → CceNodeClass
        → List (InstanceType S)
        → Result Instance × P.World
        → Result (CreatedClaim S) × P.World
    unfolding claim_of creation_failure
    with_instance image_id nc its (err e, w) = (err (creation_failure e), w)
    with_instance image_id nc its (ok i, w) = (claim_of S digest image_id nc its i, w)

    unfoldable pub with_types :
        C
        → String
        → CceNodeClass
        → Result (List (InstanceType S)) × P.World
        → Result (CreatedClaim S) × P.World
    unfolding with_instance
    with_types claim image_id nc (err e, w) = (
      err (
          create_error (wrapped "resolving instance types, %w" e) "InstanceTypeResolutionFailed"
            "Error resolving instance types"),
      w,
    )
    with_types claim image_id nc (ok its, w) =
        if configured then with_instance image_id nc its (P.create_instance nc claim its w) else (
          err (
              create_error (plain "instance provider is nil") "InstanceProviderNotConfigured"
                "Instance provider is not configured"),
          w,
        )

    -- After the checks.
    unfoldable pub with_image :
        C → CceNodeClass → Result String → P.World → Result (CreatedClaim S) × P.World
    unfolding with_types
    with_image claim nc (err e) w = (err e, w)
    with_image claim nc (ok image_id) w = with_types claim image_id nc (P.list_types nc w)

    unfoldable pub with_class : C → Result CceNodeClass → Env → Result (CreatedClaim S) × Env
    unfolding with_image check_node_class is_not_found
    with_class claim (err e) env =
        if is_not_found e
        then (err (node_class_not_ready e), publish env)
        else (err (wrapped "resolving nodeclass, %w" e), env)
    with_class claim (ok nc) env =
        let (r, w) = with_image claim nc (check_node_class nc) env.world in
        (r, record env { world = w })

    -- Create, for a claim and the name of its node class.
    unfoldable pub create : String → C → Env → Result (CreatedClaim S) × Env
    unfolding with_class resolve_node_class
    create class_name claim env = with_class claim (resolve_node_class kube_get class_name) env

    -- Delete, for the provider id of a claim; a nil claim is `none`.
    unfoldable pub delete : Option String → Env → Result (Unit {0}) × Env
    delete provider_id env =
        if not configured
        then (err (plain "instance provider is nil"), env)
        else delete_claim provider_id
      where
        delete_claim : Option String → Result (Unit {0}) × Env
        delete_claim none = (ok tt, env)
        delete_claim (some id) =
            let (r, w) = P.delete_instance id env.world in
            if id == "" then (ok tt, env) else (r, record env { world = w })

    abbrev pub only_id : String → Result Instance → Result String
    only_id id (err e) = err e
    only_id id (ok i) = ok id

    -- Get: the provider id of the claim that it returns.
    unfoldable pub get : String → Env → Result String
    get id env =
        if configured
        then only_id id (P.get_instance id env.world)
        else err (plain "instance provider is nil")

    abbrev pub put_id : Option Instance → List String → List String
    put_id none ids = ids
    put_id (some i) ids = if i.node_id == "" then ids else i.node_id ∷ ids

    unfoldable pub provider_ids : List (Option Instance) → List String
    provider_ids [] = []
    provider_ids (i ∷ is) = put_id i (provider_ids is)

    abbrev pub ids_of : Result (List (Option Instance)) → Result (List String)
    unfolding provider_ids
    ids_of (err e) = err e
    ids_of (ok is) = ok (provider_ids is)

    -- List: the provider ids of the claims that it returns.
    unfoldable pub list : Env → Result (List String)
    unfolding ids_of
    list env =
        if configured
        then ids_of (P.list_instances env.world)
        else err (plain "instance provider is nil")

    unfoldable pub types_for :
        Result CceNodeClass → Env → Result (Option (List (InstanceType S))) × Env
    unfolding is_not_found
    types_for (err e) env =
        if is_not_found e
        then (ok none, publish env)
        else (err (wrapped "resolving nodeclass, %w" e), env)
    types_for (ok nc) env =
        let (r, w) = P.list_types nc env.world in
        (r >>= (λ its. ok (some its)), record env { world = w })

    -- GetInstanceTypes, for the name of the node pool's class; nil is `none`.
    unfoldable pub get_instance_types : String → Env → Result (Option (List (InstanceType S))) × Env
    unfolding types_for resolve_node_class
    get_instance_types class_name env = types_for (resolve_node_class kube_get class_name) env

    unfoldable pub drift_of : Claim → Result CceNodeClass → Env → Result DriftReason × Env
    unfolding is_not_found is_node_class_drifted
    drift_of claim (err e) env =
        if is_not_found e
        then (ok no_drift, record env { events = env.events ++ "" ∷ [] })
        else (err (wrapped "resolving nodeclass, %w" e), env)
    drift_of claim (ok nc) env =
        (is_node_class_drifted (λ id. P.get_instance id env.world) claim nc, env)

    -- The class of the pool, by the name that the pool gives, if there is one.
    unfoldable pub drift_in_pool : Claim → Result (Option String) → Env → Result DriftReason × Env
    unfolding drift_of resolve_node_class is_not_found
    drift_in_pool claim (err e) env = (if is_not_found e then ok no_drift else err e, env)
    drift_in_pool claim (ok none) env = (ok no_drift, env)
    drift_in_pool claim (ok (some class_name)) env =
        drift_of claim (resolve_node_class kube_get class_name) env

    unfoldable pub drift_by_pool :
        (String → Result (Option String)) → Claim → Option String → Env → Result DriftReason × Env
    unfolding drift_in_pool
    drift_by_pool kube_get_pool claim none env = (ok no_drift, env)
    drift_by_pool kube_get_pool claim (some pool) env = drift_in_pool claim (kube_get_pool pool) env

    -- IsDrifted, for a claim and its labels.
    unfoldable pub is_drifted :
        (String → Result (Option String)) → Map String → Claim → Env → Result DriftReason × Env
    unfolding drift_by_pool lookup
    is_drifted kube_get_pool labels claim env =
        drift_by_pool kube_get_pool claim (lookup node_pool_label_key labels) env
