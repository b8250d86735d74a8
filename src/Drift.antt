-- ===== src/Drift.antt =====
-- pkg/cloudprovider/drift.go and pkg/controllers/nodeclass/hash/controller.go: the hash of a node
-- class, which its node claims carry as an annotation, and what says that a claim has drifted.
-- hashstructure.Hash is the parameter `digest`.
pub mod Migration
mod Tests
use karpenter_provider_huawe.Base.{
  String, Bool, true, false, List, [], ◌∷◌, ◌++◌, Option, none, some, ◌==◌, ◌&&◌, ◌||◌, not,
  if◌then◌else◌, any, is_empty, Result, ok, err, Error, plain, wrapped, wrap_error, not_found,
  ◌>>=◌,
}
use karpenter_provider_huawe.Base.Maps.{Map, lookup, insert}
use karpenter_provider_huawe.Apis
use karpenter_provider_huawe.Apis.{
  CceNodeClassSpec, CceNodeClass, NormalizedBlockDeviceMappings, NormalizedLogin,
  normalized_block_device_mappings, normalized_runtime_type, normalized_login,
}
use karpenter_provider_huawe.Instance.Queries.{Instance}

-- What the hash of a node class is taken over.
pub record HashInput : Type 0 where
  pub spec : CceNodeClassSpec
  pub effective_ims : String
  pub effective_block_device_mappings : NormalizedBlockDeviceMappings
  pub effective_runtime : String
  pub effective_login : NormalizedLogin

-- Hash
unfoldable pub hash : (HashInput → String) → CceNodeClassSpec → String
hash digest s = digest (record {
  spec = s;
  effective_ims = s.ims_family;
  effective_block_device_mappings = normalized_block_device_mappings (some s);
  effective_runtime = normalized_runtime_type s.runtime_configuration;
  effective_login = normalized_login (some s);
})

abbrev pub annotation_hash : String
annotation_hash = "karpenter.k8s.huawei/ccenodeclass-hash"

abbrev pub annotation_hash_version : String
annotation_hash_version = "karpenter.k8s.huawei/ccenodeclass-hash-version"

abbrev pub hash_version : String
hash_version = "v3"

-- A node claim, as far as drift reads it; `drifted` says that it has the condition Drifted.
pub record Claim : Type 0 where
  pub provider_id : String
  pub annotations : Map String
  pub drifted : Bool

pub data DriftReason : Type 0 where
  no_drift node_class_drift subnet_drift : DriftReason

unfoldable pub static_drift :
    Option String → Option String → Option String → Option String → DriftReason
static_drift (some class_hash) (some class_version) (some claim_hash) (some claim_version) =
    if not (class_version == claim_version)
    then no_drift
    else if not (class_hash == claim_hash)
    then node_class_drift
    else no_drift
static_drift _ _ _ _ = no_drift

-- By the annotations of the claim and of the class.
unfoldable pub are_static_fields_drifted : Map String → Map String → DriftReason
unfolding static_drift lookup
are_static_fields_drifted claim class =
    static_drift (lookup annotation_hash class) (lookup annotation_hash_version class)
      (lookup annotation_hash claim) (lookup annotation_hash_version claim)

unfoldable pub is_subnet_drifted : String → List Apis.Subnet → Result DriftReason
is_subnet_drifted subnet_id [] = err (plain "no subnets are discovered")
is_subnet_drifted subnet_id (n ∷ ns) =
    if any (λ m. m.id == subnet_id) (n ∷ ns) then ok no_drift else ok subnet_drift

-- What follows when the static fields have not drifted, by the instance.
unfoldable pub instance_drift : Result Instance → List Apis.Subnet → Result DriftReason
unfolding is_subnet_drifted
instance_drift shown subnets = do
  i ← wrap_error "getting instance, %w" shown
  wrap_error "calculating subnet drift, %w" (is_subnet_drifted i.subnet_id subnets)

-- `get` is Get of the instance provider.
unfoldable pub is_node_class_drifted :
    (String → Result Instance) → Claim → CceNodeClass → Result DriftReason
unfolding are_static_fields_drifted instance_drift
is_node_class_drifted get claim c =
    elim (are_static_fields_drifted claim.annotations c.annotations) [
      | no_drift ↦ instance_drift (get claim.provider_id) c.status_subnets
      | node_class_drift ↦ ok node_class_drift
      | subnet_drift ↦ ok subnet_drift
    ]

-- annotations[k], empty where it is missing.
abbrev pub or_empty : Option String → String
or_empty none = ""
or_empty (some v) = v

unfoldable pub is_current : Map String → Bool
unfolding lookup
is_current annotations = or_empty (lookup annotation_hash_version annotations) == hash_version

-- What updateNodeClaimHash makes of a claim.
unfoldable pub migrate_claim : String → Claim → Claim
unfolding insert
migrate_claim value claim =
    if is_current claim.annotations
    then claim
    else if claim.drifted
    then record claim {
      annotations = insert annotation_hash_version hash_version claim.annotations;
    }
    else record claim {
      annotations =
          insert annotation_hash value
            (insert annotation_hash_version hash_version claim.annotations);
    }

-- client.IgnoreNotFound
unfoldable pub ignore_not_found : Error → List Error
ignore_not_found not_found = []
ignore_not_found e = e ∷ []

-- The loop over the claims, with what Patch answers for each (`none` for no error): the claims that the API
-- server then has, and the errors.
unfoldable pub update_claims :
    (Claim → Option Error) → String → List Claim → List Claim × List Error
unfolding migrate_claim ignore_not_found
update_claims patch value [] = ([], [])
update_claims patch value (c ∷ cs) =
    let (rest, errors) = update_claims patch value cs in
    if is_current c.annotations then (c ∷ rest, errors) else elim (patch (migrate_claim value c)) [
      | none ↦ (migrate_claim value c ∷ rest, errors)
      | some e ↦ (c ∷ rest, ignore_not_found e ++ errors)
    ]

-- What lo.Assign makes of the annotations of the class.
unfoldable pub annotate : String → Map String → Map String
unfolding insert
annotate value annotations =
    insert annotation_hash_version hash_version (insert annotation_hash value annotations)

-- The annotations of the class and its claims, as the API server has them.
pub record Server : Type 0 where
  pub annotations : Map String
  pub claims : List Claim

abbrev pub holds_value : String → Option String → Bool
holds_value value none = false
holds_value value (some v) = v == value

-- Whether the annotations stay as they are.
unfoldable pub is_annotated : String → Map String → Bool
unfolding lookup
is_annotated value annotations =
    is_current annotations && holds_value value (lookup annotation_hash annotations)

unfoldable pub patch_class : Option Error → String → Server → List Error × Server
unfolding annotate
patch_class refused value s = if is_annotated value s.annotations then ([], s) else elim refused [
  | none ↦ ([], record s { annotations = annotate value s.annotations })
  | some e ↦ (e ∷ [], s)
]

-- After the claims were updated: an error ends the round.
unfoldable pub then_patch_class :
    Option Error → String → Map String → List Claim × List Error → List Error × Server
then_patch_class refused value annotations (claims, []) =
    patch_class refused value (record { annotations = annotations; claims = claims })
then_patch_class refused value annotations (claims, e ∷ errors) =
    (e ∷ errors, record { annotations = annotations; claims = claims })

-- Reconcile: what List, the patches of the claims and that of the class answer are given (`none` for
-- no error).
unfoldable pub reconcile :
    Option Error → (Claim → Option Error) → Option Error → String → Server → List Error × Server
unfolding then_patch_class
reconcile listed patch refused value s =
    if is_current s.annotations then patch_class refused value s else elim listed [
      | some e ↦ (e ∷ [], s)
      | none ↦ then_patch_class refused value s.annotations (update_claims patch value s.claims)
    ]
