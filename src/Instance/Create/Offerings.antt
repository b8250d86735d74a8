-- ===== src/Instance/Create/Offerings.antt =====
-- What Create of pkg/providers/instance/instance.go does to the cache of unavailable offerings: it
-- sets marks, and nothing else.
use karpenter_provider_huawe.Base.{
  ℕ, sym, subst, String, List, [], ◌∷◌, Option, none, some, Result, ok, err, Error, Bool-cases, inl,
  inr,
}
use karpenter_provider_huawe.Base.Int.{ℤ}
use karpenter_provider_huawe.Base.Maps.{Map}
use karpenter_provider_huawe.Apis.{CceNodeClass}
use karpenter_provider_huawe.Ext.GoCache.{GoCache}
use karpenter_provider_huawe.Ext.Scheduling.{Scheduling, InstanceType, capacity_type_on_demand}
use karpenter_provider_huawe.OfferingCache.{OfferingCache, mark_unavailable}
use karpenter_provider_huawe.Subnet.{VpcSubnet, LaunchSubnet, State, select_for_launch}
use karpenter_provider_huawe.Instance.Kubelet.{Quantities}
use karpenter_provider_huawe.Instance.NodeSpec.{NodeClaim, NodeSpec}
use karpenter_provider_huawe.Instance.Candidates.{Candidate, filter_unavailable_candidates}
use karpenter_provider_huawe.Instance.Create.{
  CceApi, Session, Env, NodeResponse, Round, returns, goes_on, is_retryable, answered, attempt,
  try_candidates, try_filtered, create_among, create_on, create_prepared, create, prepare,
}
use karpenter_provider_huawe.Instance.Create.Tries.{continue, try_candidates-continue}

module _ (S : Scheduling) (N : CceApi) (G : GoCache (Unit {0}))
    (P : Option (OfferingCache G) → Type 0)
    (marks : (now : ℕ) (capacity_type instance_type zone : String) (o : Option (OfferingCache G))
      → P o
      → P (mark_unavailable G now capacity_type instance_type zone o)) where
  answered-keeps :
      (c : Candidate S) (x : Result (Option NodeResponse) × N.World) (o : Option (OfferingCache G))
      → P o
      → P (answered S N G c x o).1.offerings
  unfolding answered
  answered-keeps c (ok resp, w) o h = h
  answered-keeps c (err e, w) o h = elim (Bool-cases (is_retryable e)) [
    | inl retry ↦ rw retry (marks (N.clock w) c.capacity_type c.instance_type.name c.zone o h)
    | inr final ↦ rw final h
  ]

  attempt-keeps :
      (cluster_id : String) (c : Candidate S) (spec : Result NodeSpec) (s : Session S N G)
      → P s.offerings
      → P (attempt S N G cluster_id c spec s).1.offerings
  unfolding attempt
  attempt-keeps cluster_id c (err e) s h = h
  attempt-keeps cluster_id c (ok spec) s h =
      answered-keeps c (N.create_node cluster_id spec s.world) s.offerings h

  module _ (cluster_id : String) (spec : Candidate S → Result NodeSpec) where
    continue-keeps :
        (cs : List (Candidate S)) (a : Round × Session S N G)
        → P a.1.offerings
        → ((e : Error) (s : Session S N G)
            → P s.offerings
            → P (try_candidates S N G cluster_id spec (some e) cs s).1.offerings)
        → P (continue S N G cluster_id spec cs a).1.offerings
    unfolding continue
    continue-keeps cs (returns r, s) h rest = h
    continue-keeps cs (goes_on e, s) h rest = rest e s h

    try_candidates-keeps :
        (cs : List (Candidate S)) (last : Option Error) (s : Session S N G)
        → P s.offerings
        → P (try_candidates S N G cluster_id spec last cs s).1.offerings
    unfolding try_candidates
    try_candidates-keeps [] last s h = h
    try_candidates-keeps (c ∷ cs) last s h =
        subst (λ r. P r.1.offerings)
          (sym (try_candidates-continue S N G cluster_id spec c cs last s))
          (continue-keeps cs (attempt S N G cluster_id c (spec c) s)
            (attempt-keeps cluster_id c (spec c) s h) (λ e s'. try_candidates-keeps cs (some e) s'))

    try_filtered-keeps :
        (cs : List (Candidate S)) (s : Session S N G)
        → P s.offerings
        → P (try_filtered S N G cluster_id spec cs s).1.offerings
    unfolding try_filtered
    try_filtered-keeps [] s h = h
    try_filtered-keeps (c ∷ cs) s h = try_candidates-keeps (c ∷ cs) none s h

    create_among-keeps :
        (cs : Option (List (Candidate S))) (s : Session S N G)
        → P s.offerings
        → P (create_among S N G cluster_id spec cs s).1.offerings
    unfolding create_among
    create_among-keeps none s h = h
    create_among-keeps (some []) s h = h
    create_among-keeps (some (c ∷ cs)) s h =
        try_filtered-keeps
          (filter_unavailable_candidates S G (N.clock s.world) s.offerings (c ∷ cs)).0 s h

  module _ (Q : Quantities) (C : GoCache (List VpcSubnet)) (A : GoCache ℤ) where
    create_on-keeps :
        (cluster_id : String) (nc : CceNodeClass) (claim : NodeClaim S.Requirements)
        (tags : Map String) (prepared : String × S.Requirements × List (InstanceType S))
        (selected : Result LaunchSubnet × State C A) (s : Session S N G)
        → P s.offerings
        → P (create_on S N G Q C A cluster_id nc claim tags prepared selected s).1.session.offerings
    unfolding create_on
    create_on-keeps cluster_id nc claim tags prepared (err e, p) s h = h
    create_on-keeps cluster_id nc claim tags prepared (ok l, p) s h =
        create_among-keeps cluster_id _ _ s h

    create_prepared-keeps :
        (cluster_id : String) (nc : CceNodeClass) (claim : NodeClaim S.Requirements)
        (tags : Map String) (prepared : Result (String × S.Requirements × List (InstanceType S)))
        (env : Env S N G Q C A)
        → P env.session.offerings
        → P (create_prepared S N G Q C A cluster_id nc claim tags prepared env).1.session.offerings
    unfolding create_prepared
    create_prepared-keeps cluster_id nc claim tags (err e) env h = h
    create_prepared-keeps cluster_id nc claim tags (ok prepared) env h =
        create_on-keeps cluster_id nc claim tags prepared
          (select_for_launch C A S (N.clock env.session.world) nc prepared.2 capacity_type_on_demand
            env.provider)
          env.session h

    -- What holds of the cache, and goes on to hold when an offering is marked, holds after a Create.
    pub create-keeps :
        (cluster_id : String) (nc : CceNodeClass) (claim : NodeClaim S.Requirements)
        (tags : Map String) (its : List (InstanceType S)) (env : Env S N G Q C A)
        → P env.session.offerings
        → P (create S N G Q C A cluster_id nc claim tags its env).1.session.offerings
    unfolding create
    create-keeps cluster_id nc claim tags its env h =
        create_prepared-keeps cluster_id nc claim tags (prepare S cluster_id nc claim its) env h
