-- ===== src/Instance/Create.antt =====
-- DefaultProvider.Create of pkg/providers/instance/instance.go. `none` as its outcome stands for the
-- panic of build_create_candidates.
pub mod Inflight
pub mod Tries
pub mod Offerings
use karpenter_provider_huawe.Base.{
  ℕ, ◌≤◌, String, Bool, true, false, List, [], ◌∷◌, Option, none, some, ◌==◌, ◌&&◌, ◌||◌, not,
  if◌then◌else◌, any, keep_if, is_empty, Result, ok, err, Error, plain, wrapped,
  insufficient_capacity, fail_if, ◌>>=◌, ◌>>◌,
}
use karpenter_provider_huawe.Base.Int.{ℤ}
use karpenter_provider_huawe.Base.Maps.{Map}
use karpenter_provider_huawe.Ext.GoCache.{GoCache}
use karpenter_provider_huawe.Ext.Scheduling.{
  Scheduling, InstanceType, capacity_type_label_key, capacity_type_on_demand,
}
use karpenter_provider_huawe.Apis.{CceNodeClass, resolve_ims_for_create_node}
use karpenter_provider_huawe.OfferingCache.{OfferingCache, mark_unavailable}
use karpenter_provider_huawe.Subnet.{
  VpcSubnet, LaunchSubnet, State, select_for_launch, release_inflight_ips,
}
use karpenter_provider_huawe.Instance.Queries.{Instance}
use karpenter_provider_huawe.Instance.Failure.{
  is_insufficient_capacity_error, is_unsupported_network_error,
}
use karpenter_provider_huawe.Instance.Kubelet.{Quantities}
use karpenter_provider_huawe.Instance.NodeSpec.{NodeClaim, NodeSpec, node_spec_for_candidate}
use karpenter_provider_huawe.Instance.Candidates.{
  Candidate, build_create_candidates, filter_unavailable_candidates,
}

-- What CreateNode answers: Metadata and its Uid, Status and its ServerId.
pub record NodeMetadata : Type 0 where
  pub uid : Option String

pub record NodeStatus : Type 0 where
  pub server_id : Option String

pub record NodeResponse : Type 0 where
  pub metadata : Option NodeMetadata
  pub status : Option NodeStatus

-- The API of CCE, whose state moves on with every call, as does the clock.
pub record CceApi : Type 1 where
  pub World : Type 0
  pub clock : World → ℕ
  pub create_node : String → NodeSpec → World → Result (Option NodeResponse) × World
  pub clock-create_node :
      (cluster_id : String) (spec : NodeSpec) (w : World)
      → clock w ≤ clock (create_node cluster_id spec w).1

unfoldable pub uid_of : Option NodeResponse → Option String
uid_of none = none
uid_of (some r) = elim r.metadata [ none ↦ none | some m ↦ m.uid ]

abbrev pub or_empty : Option String → String
or_empty none = ""
or_empty (some s) = s

unfoldable pub server_id_of : Option NodeResponse → String
server_id_of none = ""
server_id_of (some r) = elim r.status [ none ↦ "" | some t ↦ or_empty t.server_id ]

abbrev pub with_uid : String → String → String → Option String → Result Instance
with_uid flavor zone server none =
    err (plain "CreateNode succeeded but response metadata.uid is empty")
with_uid flavor zone server (some uid) =
    ok (record { node_id = uid; server_id = server; flavor = flavor; zone = zone; subnet_id = "" })

-- The instance that a response gives.
unfoldable pub instance_of : String → String → Option NodeResponse → Result Instance
unfolding uid_of server_id_of
instance_of flavor zone resp = with_uid flavor zone (server_id_of resp) (uid_of resp)

-- if lastUnavailableErr != nil
unfoldable pub create_failed : Option Error → Error
unfolding is_insufficient_capacity_error
create_failed none = plain "CreateNode failed for all candidates"
create_failed (some last) =
    let failed = wrapped "CreateNode failed for all candidates, last error" last in
    if is_insufficient_capacity_error last then insufficient_capacity failed else failed

-- One round of the loop: it returns from Create, or goes on after an error.
pub data Round : Type 0 where
  returns : Result Instance → Round
  goes_on : Error → Round

-- Both errors on which the loop goes on mark the offering.
unfoldable pub is_retryable : Error → Bool
unfolding is_insufficient_capacity_error is_unsupported_network_error
is_retryable e = is_insufficient_capacity_error e || is_unsupported_network_error e

unfoldable pub is_allowed : Option (List String) → String → Bool
is_allowed none name = true
is_allowed (some []) name = true
is_allowed (some (v ∷ vs)) name = any (λ w. w == name) (v ∷ vs)

module _ (S : Scheduling) where
  -- The requirements with on-demand added, unless they exclude it.
  unfoldable pub on_demand_requirements : S.Requirements → Result S.Requirements
  on_demand_requirements reqs =
      fail_if
        (S.has capacity_type_label_key reqs
          && not (S.get_has capacity_type_label_key capacity_type_on_demand reqs))
        (plain "only on-demand is supported")
      >> ok (S.add_in capacity_type_label_key (capacity_type_on_demand ∷ []) reqs)

  unfoldable pub compatible_instance_types :
      Option (List String) → S.Requirements → List (InstanceType S) → List (InstanceType S)
  unfolding is_allowed
  compatible_instance_types allowed reqs its =
      keep_if
        (λ it.
          is_allowed allowed it.name
          && not (is_empty (keep_if (λ o. S.compatible reqs o.requirements) it.offerings)))
        its

  -- What is checked before a subnet is selected: the image, the requirements, the instance types.
  unfoldable pub prepare :
      String
      → CceNodeClass
      → NodeClaim S.Requirements
      → List (InstanceType S)
      → Result (String × S.Requirements × List (InstanceType S))
  unfolding resolve_ims_for_create_node on_demand_requirements compatible_instance_types
  prepare cluster_id c claim its = do
    _ ← fail_if (cluster_id == "") (plain "CCE clusterID is empty")
    os_alias ← resolve_ims_for_create_node (some c.spec)
    reqs ← on_demand_requirements claim.requirements
    let compatible = compatible_instance_types claim.instance_type_values reqs its
    _ ←
        fail_if (is_empty compatible)
          (insufficient_capacity (plain "no compatible instance types for requirements"))
    ok (os_alias, reqs, compatible)

  module _ (N : CceApi) (G : GoCache (Unit {0})) where
    -- The state that the loop changes.
    pub record Session : Type 0 where
      pub world : N.World
      pub offerings : Option (OfferingCache G)

    unfoldable pub answered :
        Candidate S
        → Result (Option NodeResponse) × N.World
        → Option (OfferingCache G)
        → Round × Session
    unfolding instance_of is_retryable mark_unavailable
    answered c (ok resp, w) offerings = (
      returns (instance_of c.instance_type.name c.zone resp),
      record { world = w; offerings = offerings },
    )
    answered c (err e, w) offerings =
        if is_retryable e
        then (
          goes_on e,
          record {
            world = w;
            offerings =
                mark_unavailable G (N.clock w) c.capacity_type c.instance_type.name c.zone
                  offerings;
          },
        )
        else (returns (err e), record { world = w; offerings = offerings })

    unfoldable pub attempt : String → Candidate S → Result NodeSpec → Session → Round × Session
    unfolding answered
    attempt cluster_id c (err e) s = (returns (err e), s)
    attempt cluster_id c (ok spec) s =
        answered c (N.create_node cluster_id spec s.world) s.offerings

    -- The loop over the candidates, with the spec of each.
    unfoldable pub try_candidates :
        String
        → (Candidate S → Result NodeSpec)
        → Option Error
        → List (Candidate S)
        → Session
        → Result Instance × Session
    unfolding attempt create_failed
    try_candidates cluster_id spec last [] s = (err (create_failed last), s)
    try_candidates cluster_id spec last (c ∷ cs) s =
        let (round, s') = attempt cluster_id c (spec c) s in
        elim round [
          | returns r ↦ (r, s')
          | goes_on e ↦ try_candidates cluster_id spec (some e) cs s'
        ]

    -- The loop, unless every candidate is marked.
    unfoldable pub try_filtered :
        String
        → (Candidate S → Result NodeSpec)
        → List (Candidate S)
        → Session
        → Result Instance × Session
    unfolding try_candidates
    try_filtered cluster_id spec [] s = (
      err (insufficient_capacity (plain "all compatible offerings are temporarily unavailable")),
      s,
    )
    try_filtered cluster_id spec (c ∷ cs) s = try_candidates cluster_id spec none (c ∷ cs) s

    -- What follows the selection of a subnet, by the candidates.
    unfoldable pub create_among :
        String
        → (Candidate S → Result NodeSpec)
        → Option (List (Candidate S))
        → Session
        → Option (Result Instance) × Session
    unfolding filter_unavailable_candidates try_filtered
    create_among cluster_id spec none s = (none, s)
    create_among cluster_id spec (some []) s = (
      some (
          err (
            insufficient_capacity (plain "no compatible (instanceType, zone, subnet) candidates"))),
      s,
    )
    create_among cluster_id spec (some (c ∷ cs)) s =
        let (filtered, skipped) =
          filter_unavailable_candidates S G (N.clock s.world) s.offerings (c ∷ cs) in
        let (r, s') = try_filtered cluster_id spec filtered s in (some r, s')

    module _ (Q : Quantities) (C : GoCache (List VpcSubnet)) (A : GoCache ℤ) where
      pub record Env : Type 0 where
        pub session : Session
        pub provider : State C A

      -- With the selected subnet, whose reservation the deferred call gives back.
      unfoldable pub create_on :
          String
          → CceNodeClass
          → NodeClaim S.Requirements
          → Map String
          → String × S.Requirements × List (InstanceType S)
          → Result LaunchSubnet × State C A
          → Session
          → Option (Result Instance) × Env
      unfolding create_among build_create_candidates node_spec_for_candidate release_inflight_ips
      create_on cluster_id c claim tags prepared (err e, p) s =
          (some (err e), record { session = s; provider = p })
      create_on cluster_id c claim tags (os_alias, reqs, its) (ok l, p) s =
          let (r, s') =
            create_among cluster_id
              (λ cand.
                node_spec_for_candidate Q c claim tags cand.instance_type.name cand.zone
                  cand.subnet_id os_alias)
              (build_create_candidates S its reqs l.id) s in
          (
            r,
            record {
              session = s';
              provider = (release_inflight_ips C A (N.clock s'.world) (some l) p).1;
            },
          )

      unfoldable pub create_prepared :
          String
          → CceNodeClass
          → NodeClaim S.Requirements
          → Map String
          → Result (String × S.Requirements × List (InstanceType S))
          → Env
          → Option (Result Instance) × Env
      unfolding create_on select_for_launch
      create_prepared cluster_id c claim tags (err e) env = (some (err e), env)
      create_prepared cluster_id c claim tags (ok prepared) env =
          create_on cluster_id c claim tags prepared
            (select_for_launch C A S (N.clock env.session.world) c prepared.2
              capacity_type_on_demand env.provider)
            env.session

      -- Create
      unfoldable pub create :
          String
          → CceNodeClass
          → NodeClaim S.Requirements
          → Map String
          → List (InstanceType S)
          → Env
          → Option (Result Instance) × Env
      unfolding create_prepared prepare
      create cluster_id c claim tags its env =
          create_prepared cluster_id c claim tags (prepare cluster_id c claim its) env
