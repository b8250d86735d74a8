-- ===== src/Instance/Create/Tries.antt =====
-- The loop of Create of pkg/providers/instance/instance.go over its candidates.
use karpenter_provider_huawe.Base.{
  ℕ, ◌+◌, ◌≤◌, ◌≡◌, refl, sym, ◌∙◌, ap, subst, String, List, [], ◌∷◌, Option, none, some, true,
  eq_refl, ok, err, Error, Result, arith, All, Bool-cases, inl, inr, ◌⊎◌, IsIn,
}
use karpenter_provider_huawe.Ext.GoCache.{GoCache}
use karpenter_provider_huawe.Ext.Scheduling.{Scheduling}
use karpenter_provider_huawe.OfferingCache.{
  OfferingCache, mark_unavailable, offering_availability_key,
}
use karpenter_provider_huawe.OfferingCache.Marks.{is_unavailable-mark_unavailable}
use karpenter_provider_huawe.Instance.NodeSpec.{NodeSpec}
use karpenter_provider_huawe.Instance.Candidates.{Candidate, blocked}
use karpenter_provider_huawe.Instance.Queries.{Instance}
use karpenter_provider_huawe.Instance.Create.{
  CceApi, Session, NodeResponse, Round, returns, goes_on, is_retryable, attempt, answered,
  try_candidates, create_failed,
}

module _ (S : Scheduling) (N : CceApi) (G : GoCache (Unit {0})) where
  -- A mark for the offering of `c`, set at `now`: it is marked, and what was marked stays so.
  mark-keeps :
      (now later : ℕ) (c d : Candidate S) (oc : OfferingCache G)
      → later ≤ now + oc.ttl
      → blocked S G later (some oc) d ≡ true
      → blocked S G later
          (mark_unavailable G now c.capacity_type c.instance_type.name c.zone (some oc))
          d
        ≡ true
  mark-keeps now later c d oc live h =
      rw
        (is_unavailable-mark_unavailable G now later c.capacity_type c.instance_type.name c.zone
          d.capacity_type d.instance_type.name d.zone oc)
        (ground (arith, h))

  mark-marks :
      (now later : ℕ) (c : Candidate S) (oc : OfferingCache G)
      → later ≤ now + oc.ttl
      → blocked S G later
          (mark_unavailable G now c.capacity_type c.instance_type.name c.zone (some oc))
          c
        ≡ true
  mark-marks now later c oc live =
      rw
        (
          is_unavailable-mark_unavailable G now later c.capacity_type c.instance_type.name c.zone
              c.capacity_type c.instance_type.name c.zone oc,
          eq_refl (offering_availability_key c.capacity_type c.instance_type.name c.zone),
        )
        (ground arith)

  -- What a round that goes on has done to a session with the cache `oc`.
  record Marked (start : ℕ) (oc : OfferingCache G) (c : Candidate S) (e : Error)
      (s' : Session S N G) : Type 0 where
    retryable : is_retryable e ≡ true
    cache : OfferingCache G
    offerings : s'.offerings ≡ some cache
    same_ttl : cache.ttl ≡ oc.ttl
    later_clock : start ≤ N.clock s'.world
    marks : (later : ℕ) → later ≤ start + oc.ttl → blocked S G later s'.offerings c ≡ true
    keeps :
        (later : ℕ) (d : Candidate S)
        → later ≤ start + oc.ttl
        → blocked S G later (some oc) d ≡ true
        → blocked S G later s'.offerings d ≡ true

  abbrev MarkedIf : ℕ → OfferingCache G → Candidate S → Round × Session S N G → Type 0
  MarkedIf start oc c (returns r, s') = Unit
  MarkedIf start oc c (goes_on e, s') = Marked start oc c e s'

  answered-Marked :
      (start : ℕ) (oc : OfferingCache G) (c : Candidate S)
      (x : Result (Option NodeResponse) × N.World)
      → start ≤ N.clock x.1
      → MarkedIf start oc c (answered S N G c x (some oc))
  unfolding answered
  answered-Marked start oc c (ok resp, w) h = tt
  answered-Marked start oc c (err e, w) h = elim (Bool-cases (is_retryable e)) [
    | inl retry ↦ rw retry (record {
      retryable = retry;
      cache = _;
      offerings = refl;
      same_ttl = refl;
      later_clock = h;
      marks = λ later live. mark-marks (N.clock w) later c oc (omega (arith, live, h));
      keeps = λ later d live. mark-keeps (N.clock w) later c d oc (omega (arith, live, h));
    })
    | inr final ↦ rw final tt
  ]

  attempt-Marked :
      (cluster_id : String) (c : Candidate S) (spec : Result NodeSpec) (s : Session S N G)
      (oc : OfferingCache G)
      → s.offerings ≡ some oc
      → MarkedIf (N.clock s.world) oc c (attempt S N G cluster_id c spec s)
  unfolding attempt
  attempt-Marked cluster_id c (err e) s oc o = tt
  attempt-Marked cluster_id c (ok spec) s oc o = rw o (
      answered-Marked (N.clock s.world) oc c (N.create_node cluster_id spec s.world)
        (N.clock-create_node cluster_id spec s.world))

  module _ (cluster_id : String) (spec : Candidate S → Result NodeSpec) where
    -- One candidate returned, with the answer to it.
    abbrev pub Returned : List (Candidate S) → Result Instance × Session S N G → Type 0
    Returned cs r =
        (c : Candidate S) × (s' : Session S N G) × IsIn c cs
        × (attempt S N G cluster_id c (spec c) s' ≡ (returns r.0, r.1))

    -- Each candidate in turn fails with an error on which the loop goes on, from a session to one,
    -- and the error is that of the last of them; with no candidate it is the error of before.
    abbrev pub AllFailed :
        List (Candidate S) → Option Error → Session S N G → Option Error → Session S N G → Type 0
    AllFailed [] before s last t = (last ≡ before) × (t ≡ s)
    AllFailed (c ∷ cs) before s last t =
        (e : Error) × (s' : Session S N G) × (is_retryable e ≡ true)
        × (attempt S N G cluster_id c (spec c) s ≡ (goes_on e, s'))
        × AllFailed cs (some e) s' last t

    -- All candidates failed, the error of the last one is that of Create, and all are marked until a
    -- time to live after the start.
    abbrev pub Exhausted :
        Option Error
        → Session S N G
        → ℕ
        → ℕ
        → List (Candidate S)
        → Result Instance × Session S N G
        → Type 0
    Exhausted before s start ttl cs r =
        (last : Option Error) × AllFailed cs before s last r.1
        × (r.0 ≡ err (create_failed last))
        × ((later : ℕ)
            → later ≤ start + ttl
            → All (λ c. blocked S G later r.1.offerings c ≡ true) cs)

    -- With a candidate, the error is one on which the loop goes on.
    pub AllFailed-last :
        (c : Candidate S) (cs : List (Candidate S)) (before : Option Error) (s : Session S N G)
        (last : Option Error) (t : Session S N G)
        → AllFailed (c ∷ cs) before s last t
        → (e : Error) × (is_retryable e ≡ true) × (last ≡ some e)
    AllFailed-last c [] before s last t (e, s', retry, a, (same, end)) = (e, retry, same)
    AllFailed-last c (d ∷ cs) before s last t (e, s', retry, a, rest) =
        AllFailed-last d cs (some e) s' last t rest

    unfoldable pub continue :
        List (Candidate S) → Round × Session S N G → Result Instance × Session S N G
    continue cs a =
        let (round, s') = a in
        elim round [
          | returns r ↦ (r, s')
          | goes_on e ↦ try_candidates S N G cluster_id spec (some e) cs s'
        ]

    pub try_candidates-continue :
        (c : Candidate S) (cs : List (Candidate S)) (last : Option Error) (s : Session S N G)
        → try_candidates S N G cluster_id spec last (c ∷ cs) s
          ≡ continue cs (attempt S N G cluster_id c (spec c) s)
    unfolding try_candidates continue
    try_candidates-continue c cs last s = refl

    try_candidates-after :
        (c : Candidate S) (cs : List (Candidate S)) (last : Option Error) (s : Session S N G)
        (oc : OfferingCache G) (a : Round × Session S N G)
        → MarkedIf (N.clock s.world) oc c a
        → attempt S N G cluster_id c (spec c) s ≡ a
        → Returned (c ∷ cs) (try_candidates S N G cluster_id spec last (c ∷ cs) s)
          ⊎ ((e : Error) × (s' : Session S N G) × Marked (N.clock s.world) oc c e s'
              × (attempt S N G cluster_id c (spec c) s ≡ (goes_on e, s'))
              × (try_candidates S N G cluster_id spec last (c ∷ cs) s
                  ≡ try_candidates S N G cluster_id spec (some e) cs s'))
    unfolding continue
    try_candidates-after c cs last s oc (returns r, s') m e =
        let same = try_candidates-continue c cs last s ∙ ap (continue cs) e in
        inl (c, s, inl refl, e ∙ ap (λ x. (returns x.0, x.1)) (sym same))
    try_candidates-after c cs last s oc (goes_on x, s') m e =
        inr (x, s', m, e, try_candidates-continue c cs last s ∙ ap (continue cs) e)

    -- The same, with what was marked before the loop.
    abbrev Ends :
        Option Error
        → Session S N G
        → ℕ
        → ℕ
        → OfferingCache G
        → List (Candidate S)
        → Result Instance × Session S N G
        → Type 0
    Ends before s start ttl oc cs r =
        Returned cs r
        ⊎ Exhausted before s start ttl cs r
          × ((later : ℕ) (d : Candidate S)
              → later ≤ start + ttl
              → blocked S G later (some oc) d ≡ true
              → blocked S G later r.1.offerings d ≡ true)

    Ends-after :
        (c : Candidate S) (cs : List (Candidate S)) (start ttl : ℕ) (s s' : Session S N G)
        (oc : OfferingCache G) (before : Option Error) (e : Error)
        (r : Result Instance × Session S N G)
        → oc.ttl ≡ ttl
        → start ≤ N.clock s.world
        → attempt S N G cluster_id c (spec c) s ≡ (goes_on e, s')
        → (m : Marked (N.clock s.world) oc c e s') → Ends (some e) s' start ttl m.cache cs r
        → Ends before s start ttl oc (c ∷ cs) r
    Ends-after c cs start ttl s s' oc before e r t h a m (inl (d, u, i, q)) = inl (d, u, inr i, q)
    Ends-after c cs start ttl s s' oc before e r t h a m (inr ((x, failed, q, all), keeps)) = inr (
      (
        x,
        (e, s', m.retryable, a, failed),
        q,
        λ later live. (
          keeps later c live (rw m.offerings at (m.marks later (omega (arith, t, h, live)))),
          all later live,
        ),
      ),
      λ later d live k.
          keeps later d live (rw m.offerings at (m.keeps later d (omega (arith, t, h, live)) k)),
    )

    tried_first :
        (c : Candidate S) (cs : List (Candidate S)) (start ttl : ℕ) (last : Option Error)
        (s : Session S N G) (oc : OfferingCache G)
        → s.offerings ≡ some oc
        → oc.ttl ≡ ttl
        → start ≤ N.clock s.world
        → ((e : Error) (s' : Session S N G) (m : Marked (N.clock s.world) oc c e s')
            → Ends
                (some e)
                s'
                start
                ttl
                m.cache
                cs
                (try_candidates S N G cluster_id spec (some e) cs s'))
        → Ends last s start ttl oc (c ∷ cs) (try_candidates S N G cluster_id spec last (c ∷ cs) s)
    tried_first c cs start ttl last s oc o t h rest =
        elim (try_candidates-after c cs last s oc (attempt S N G cluster_id c (spec c) s)
          (attempt-Marked cluster_id c (spec c) s oc o) refl) [
            | inl r ↦ inl r
            | inr (e, s', m, a, q) ↦
                subst (Ends last s start ttl oc (c ∷ cs)) (sym q)
                  (Ends-after c cs start ttl s s' oc last e _ t h a m (rest e s' m))
          ]

    tried :
        (cs : List (Candidate S)) (start ttl : ℕ) (last : Error) (s : Session S N G)
        (oc : OfferingCache G)
        → s.offerings ≡ some oc
        → oc.ttl ≡ ttl
        → start ≤ N.clock s.world
        → Ends (some last) s start ttl oc cs (try_candidates S N G cluster_id spec (some last) cs s)
    unfolding try_candidates
    tried [] start ttl last s oc o t h =
        inr ((some last, (refl, refl), refl, λ later live. tt), λ later d live k. rw o k)
    tried (c ∷ cs) start ttl last s oc o t h =
        tried_first c cs start ttl (some last) s oc o t h (λ e s' m.
          tried cs start ttl e s' m.cache m.offerings (m.same_ttl ∙ t)
            (omega (arith, h, m.later_clock)))

    -- With an offering cache and at least one candidate, the loop returns with one of its
    -- candidates; or all failed, each tried once and in the order of the list, with errors on which
    -- the loop goes on: the error of the last candidate decides the error of Create, and every
    -- candidate is marked unavailable for the cache's time to live, counted from the start of the
    -- loop.
    pub try_candidates-Outcome :
        (c : Candidate S) (cs : List (Candidate S)) (s : Session S N G) (oc : OfferingCache G)
        → s.offerings ≡ some oc
        → let r = try_candidates S N G cluster_id spec none (c ∷ cs) s in
          Returned (c ∷ cs) r ⊎ Exhausted none s (N.clock s.world) oc.ttl (c ∷ cs) r
    try_candidates-Outcome c cs s oc o =
        elim (tried_first c cs (N.clock s.world) oc.ttl none s oc o refl (omega arith) (λ e s' m.
          tried cs (N.clock s.world) oc.ttl e s' m.cache m.offerings m.same_ttl m.later_clock)) [
            | inl r ↦ inl r
            | inr (x, keeps) ↦ inr x
          ]
