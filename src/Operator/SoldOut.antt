-- ===== src/Operator/SoldOut.antt =====
-- What Create of pkg/providers/instance/instance.go finds to be sold out, and what the instance type
-- provider offers after it: the two share one cache in the operator of pkg/operator/operator.go.
use karpenter_provider_huawe.Base.{
  ℕ, ◌+◌, ◌≤◌, ◌≡◌, refl, sym, ◌∙◌, ap, String, true, false, List, [], ◌∷◌, none, some, not, ◌⊎◌,
  inl, inr, Result, ok, err, Error, All, All-map, IsIn,
}
use karpenter_provider_huawe.Apis.{CceNodeClass}
use karpenter_provider_huawe.Ext.Scheduling.{InstanceType, capacity_type_on_demand}
use karpenter_provider_huawe.OfferingCache.{OfferingCache}
use karpenter_provider_huawe.Subnet.{LaunchSubnet, select_for_launch}
use karpenter_provider_huawe.Instance.NodeSpec.{NodeSpec, node_spec_for_candidate}
use karpenter_provider_huawe.Instance.Queries.{Instance}
use karpenter_provider_huawe.Instance.Candidates.{
  Candidate, blocked, build_create_candidates, filter_unavailable_candidates,
}
use karpenter_provider_huawe.Instance.Create.{
  Session, returns, is_retryable, attempt, prepare, create, create_prepared, create_on,
  create_among, create_failed, try_filtered, try_candidates,
}
use karpenter_provider_huawe.Instance.Create.Tries.{AllFailed-last, try_candidates-Outcome}
use karpenter_provider_huawe.InstanceTypes.{offering_of}
use karpenter_provider_huawe.Operator.Clients.{Services, create_api}
use karpenter_provider_huawe.Operator.{Operator, Sched, Claims, price_of, now, create_instance}

module _ (V : Services) where
  abbrev pub Launch : Type 0
  Launch = Session (Sched V) (create_api V.nodes) V.marks

  abbrev pub Cand : Type 0
  Cand = Candidate (Sched V)

  -- The session of the loop in an operator.
  abbrev launch : Operator V → Launch
  launch o = record { world = o.nodes; offerings = o.types.offering_availability_cache }

  -- A Create that comes to try its candidates: what it prepares, the subnet it selects, the
  -- candidates, and those of them that are not marked.
  pub record Tries (nc : CceNodeClass) (claim : Claims V) (its : List (InstanceType (Sched V)))
      (o : Operator V) : Type 0 where
    pub prepared : String × (Sched V).Requirements × List (InstanceType (Sched V))
    pub subnet : LaunchSubnet
    pub some_candidate : Cand
    pub candidates : List Cand
    pub first : Cand
    pub others : List Cand
    pub prepares : prepare (Sched V) V.cluster_id nc claim its ≡ ok prepared
    pub selects :
        (select_for_launch V.listings V.counts
          (Sched V)
          (now V o)
          nc
          prepared.2
          capacity_type_on_demand
          o.subnets).0
        ≡ ok subnet
    pub builds :
        build_create_candidates (Sched V) prepared.2 prepared.1 subnet.id
        ≡ some (some_candidate ∷ candidates)
    pub filters :
        (filter_unavailable_candidates
          (Sched V)
          V.marks
          (now V o)
          o.types.offering_availability_cache
          (some_candidate ∷ candidates)).0
        ≡ first ∷ others

  module _ (nc : CceNodeClass) (claim : Claims V) (its : List (InstanceType (Sched V)))
      (o : Operator V) (t : Tries nc claim its o) where
    abbrev pub spec_of : Cand → Result NodeSpec
    spec_of c =
        node_spec_for_candidate V.quantities nc claim [] c.instance_type.name c.zone c.subnet_id
          t.prepared.0

    abbrev pub tried : Result Instance × Launch
    tried =
        try_candidates (Sched V) (create_api V.nodes) V.marks V.cluster_id spec_of none
          (t.first ∷ t.others) (launch o)

    create_instance-tried : (create_instance V nc claim its o).0 ≡ tried.0
    unfolding create_instance create create_prepared create_on create_among try_filtered
    create_instance-tried =
        rw (t.prepares, create_prepared, t.selects, create_on, t.builds, create_among, t.filters)
          refl

    create_instance-marks :
        (create_instance V nc claim its o).1.types.offering_availability_cache ≡ tried.1.offerings
    unfolding create_instance create create_prepared create_on create_among try_filtered
    create_instance-marks =
        rw (t.prepares, create_prepared, t.selects, create_on, t.builds, create_among, t.filters)
          refl

    -- The offering that is made for a candidate at a time is not available.
    abbrev pub NotOffered : Operator V → ℕ → Cand → Type 0
    NotOffered p later c =
        (offering_of (Sched V) V.marks V.types V.capacities V.ecs V.monitor (price_of V p) later
          p.types.offering_availability_cache c.instance_type.name c.zone c.capacity_type).available
        ≡ false

    blocked-NotOffered :
        (later : ℕ) (c : Cand)
        → blocked (Sched V) V.marks later tried.1.offerings c ≡ true
        → NotOffered (create_instance V nc claim its o).1 later c
    unfolding offering_of
    blocked-NotOffered later c h =
        ap not (ap (λ m. blocked (Sched V) V.marks later m c) create_instance-marks ∙ h)

    -- A Create that comes to try its candidates either returns what CreateNode answers for one of
    -- them, or all are sold out or not to be had, it returns the last of these errors, and until the
    -- marks expire the instance type provider offers none of them: whoever lists instance types by
    -- then finds each of these offerings unavailable.
    pub create_instance-sold_out :
        (oc : OfferingCache V.marks)
        → o.types.offering_availability_cache ≡ some oc
        → let (r, p) = create_instance V nc claim its o in
          ((c : Cand) × (s : Launch) × IsIn c (t.first ∷ t.others)
            × ((attempt (Sched V) (create_api V.nodes) V.marks V.cluster_id c (spec_of c) s).0
                ≡ returns r))
          ⊎ ((e : Error) × (is_retryable e ≡ true)
              × (r ≡ err (create_failed (some e)))
              × ((later : ℕ)
                  → later ≤ now V o + oc.ttl
                  → All (NotOffered p later) (t.first ∷ t.others)))
    create_instance-sold_out oc is_configured =
        elim (try_candidates-Outcome (Sched V) (create_api V.nodes) V.marks V.cluster_id spec_of
          t.first t.others (launch o) oc is_configured) [
            | inl (c, s, i, q) ↦
                inl (c, s, i, ap (λ x. x.0) q ∙ ap returns (sym create_instance-tried))
            | inr (last, failed, q, all) ↦
                let (e, retry, same) =
                  AllFailed-last (Sched V) (create_api V.nodes) V.marks V.cluster_id spec_of t.first
                    t.others none (launch o) last _ failed in
                inr (
                  e,
                  retry,
                  create_instance-tried ∙ q ∙ ap (λ x. err (create_failed x)) same,
                  λ later live.
                      All-map _ _ (blocked-NotOffered later) (t.first ∷ t.others) (all later live),
                )
          ]
