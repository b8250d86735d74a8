-- ===== src/Instance/Create/Inflight.antt =====
-- Create of pkg/providers/instance/instance.go and the addresses in flight of its subnet provider.
use karpenter_provider_huawe.Base.{
  ℕ, ◌+◌, ◌≤◌, ◌≡◌, refl, ◌∙◌, ap, subst, sym, String, List, [], ◌∷◌, some, ok, err, Error,
  Result-cases, ok_ne_err, arith, All, Bool-cases, inl, inr,
}
use karpenter_provider_huawe.Base.Int.{ℤ, pos, pos_part, neg_part, ltb_ℤ, IsInt32}
use karpenter_provider_huawe.Base.Maps.{Map}
use karpenter_provider_huawe.Ext.GoCache.{GoCache}
use karpenter_provider_huawe.Ext.Scheduling.{Scheduling, InstanceType, capacity_type_on_demand}
use karpenter_provider_huawe.Apis
use karpenter_provider_huawe.Apis.{CceNodeClass}
use karpenter_provider_huawe.Subnet.{
  VpcSubnet, LaunchSubnet, State, reserve, select_for_launch, select_among, release_inflight_ips,
}
use karpenter_provider_huawe.Subnet.Accounts.{outstanding}
use karpenter_provider_huawe.Subnet.Predicted.{predicted_ips-IsInt32}
use karpenter_provider_huawe.Subnet.Selection.{
  HasId-All, Named, select_for_launch-Outcome, select_among-Outcome,
}
use karpenter_provider_huawe.Subnet.Reservations.{
  System, IsBalanced, launched, returned, Step-IsBalanced, select_for_launch-ok_ne_nil,
}
use karpenter_provider_huawe.Instance.Kubelet.{Quantities}
use karpenter_provider_huawe.Instance.NodeSpec.{NodeClaim}
use karpenter_provider_huawe.Instance.Create.{
  CceApi, Session, create, create_prepared, create_on, prepare,
}

module _ (S : Scheduling) (C : GoCache (List VpcSubnet)) (A : GoCache ℤ) (base : String → ℤ)
    (int32 : (id : String) → IsInt32 (base id)) where
  -- The counts of the subnets of a node class are cached at a time.
  abbrev pub CountsCached : ℕ → CceNodeClass → State C A → Type 0
  CountsCached now c p =
      All (λ n. A.get now n.id p.available_ip_address_cache ≡ some (base n.id)) c.status_subnets

  reserve-available :
      (id : String) (available predicted : ℤ) (p : State C A)
      → (reserve C A id available predicted p).available_ip_address_cache
        ≡ p.available_ip_address_cache
  unfolding reserve
  reserve-available id available predicted p = elim (Bool-cases (ltb_ℤ (pos 0) predicted)) [
    | inl e ↦ rw e refl
    | inr e ↦ rw e refl
  ]

  -- What the end of a launch needs of its beginning.
  record Launch (now later : ℕ) (its : List (InstanceType S)) (capacity_type : String)
      (p : State C A) (l : LaunchSubnet) (q : State C A) : Type 0 where
    cached : A.get later l.id q.available_ip_address_cache ≡ some (base l.id)
    bounded : IsInt32 l.reserved_ip_address_count

  select_for_launch-Launch :
      (now later : ℕ) (c : CceNodeClass) (its : List (InstanceType S)) (capacity_type : String)
      (p : State C A) (l : LaunchSubnet)
      → Named c.status_subnets
      → CountsCached later c p
      → (select_for_launch C A S now c its capacity_type p).0 ≡ ok l
      → Launch now later its capacity_type p l (select_for_launch C A S now c its capacity_type p).1
  select_for_launch-Launch now later c its capacity_type p l named fresh e =
      let (l', found, kept, predicted, sel) =
        select_for_launch-Outcome C A S now its capacity_type p c named
          (select_for_launch-ok_ne_nil C A S base int32 now c its capacity_type p l e) in
      let same : l' ≡ l = cc (found, e) in
      subst
        (λ x.
          Launch now later its capacity_type p x
            (select_for_launch C A S now c its capacity_type p).1)
        same
        (record {
          cached =
              ap (λ q. A.get later l'.id q.available_ip_address_cache) kept
              ∙ ap (A.get later l'.id) (reserve-available l'.id _ _ p)
              ∙ HasId-All (λ id. A.get later id p.available_ip_address_cache ≡ some (base id)) l'.id
                  c.status_subnets fresh sel.listed;
          bounded = rw predicted (predicted_ips-IsInt32 S capacity_type its);
        })

  select_for_launch-err_lem :
      (now : ℕ) (c : CceNodeClass) (its : List (InstanceType S)) (capacity_type : String)
      (p : State C A) (t : Error)
      → Named c.status_subnets
      → (select_for_launch C A S now c its capacity_type p).0 ≡ err t
      → (select_for_launch C A S now c its capacity_type p).1 ≡ p
  unfolding select_for_launch select_among
  select_for_launch-err_lem now c its capacity_type p t named e = empty c.status_subnets named e
    where
      empty :
          (ns : List Apis.Subnet)
          → Named ns
          → (select_among C A S now ns its capacity_type p).0 ≡ err t
          → (select_among C A S now ns its capacity_type p).1 ≡ p
      empty [] h e = refl
      empty (n ∷ ns) h e =
          let (l, found, kept, predicted, sel) =
            select_among-Outcome C A S now its capacity_type p (n ∷ ns) h (λ x. cc) in
          absurd (ok_ne_err (sym found ∙ e))

  -- A launch that ends, with room for its reservation.
  launch_ended-IsBalanced :
      (s : System C A base) (now later : ℕ) (c : CceNodeClass) (its : List (InstanceType S))
      (l : LaunchSubnet)
      → IsBalanced C A base s
      → Named c.status_subnets
      → CountsCached now c s.provider
      → CountsCached later c s.provider
      → ((id : String) → neg_part (base id) + outstanding id s.held ≤ pos_part (base id) + 1)
      → let (r, p) = select_for_launch C A S now c its capacity_type_on_demand s.provider in
        r ≡ ok l
        → IsBalanced C A base
            (record s { provider = (release_inflight_ips C A later (some l) p).1 })
  launch_ended-IsBalanced s now later c its l b named fresh fresh_later room e =
      let k =
        select_for_launch-Launch now later c its capacity_type_on_demand s.provider l named
          fresh_later e in
      let started =
        Step-IsBalanced C A S base int32
          (launched now c its capacity_type_on_demand l named fresh e
            (omega (arith, room l.id, k.bounded.below)))
          b in
      Step-IsBalanced C A S base int32 (returned later [] s.held l refl k.cached) started

  module _ (N : CceApi) (G : GoCache (Unit {0})) (Q : Quantities) where
    create_on-IsBalanced :
        (s : System C A base) (cluster_id : String) (c : CceNodeClass)
        (claim : NodeClaim S.Requirements) (tags : Map String) (now : ℕ)
        (prepared : String × S.Requirements × List (InstanceType S)) (session : Session S N G)
        → IsBalanced C A base s
        → Named c.status_subnets
        → CountsCached now c s.provider
        → ((id : String) → neg_part (base id) + outstanding id s.held ≤ pos_part (base id) + 1)
        → let sel = select_for_launch C A S now c prepared.2 capacity_type_on_demand s.provider in
          let env = (create_on S N G Q C A cluster_id c claim tags prepared sel session).1 in
          CountsCached (N.clock env.session.world) c s.provider
          → IsBalanced C A base (record s { provider = env.provider })
    unfolding create_on
    create_on-IsBalanced s cluster_id c claim tags now prepared session b named fresh room later =
        let sel = select_for_launch C A S now c prepared.2 capacity_type_on_demand s.provider in
        elim (Result-cases sel.0) [
          | inl (l, e) ↦
              rw e (
                launch_ended-IsBalanced s now _ c prepared.2 l b named fresh (rw e at later) room e)
          | inr (t, e) ↦
              rw
                (
                  e,
                  select_for_launch-err_lem now c prepared.2 capacity_type_on_demand s.provider t
                      named e,
                )
                b
        ]

    -- A Create, whatever becomes of it, leaves the books of the subnet provider balanced with no
    -- launch more under way than before: it gives back what it has reserved. The subnets are named
    -- and their counts are cached at its begin and end, and what other launches have reserved is no
    -- more than the counts.
    pub create-IsBalanced :
        (s : System C A base) (cluster_id : String) (c : CceNodeClass)
        (claim : NodeClaim S.Requirements) (tags : Map String) (its : List (InstanceType S))
        (session : Session S N G)
        → IsBalanced C A base s
        → Named c.status_subnets
        → CountsCached (N.clock session.world) c s.provider
        → ((id : String) → neg_part (base id) + outstanding id s.held ≤ pos_part (base id) + 1)
        → let env =
            (create S N G Q C A cluster_id c claim tags its
              (record { session = session; provider = s.provider })).1 in
          CountsCached (N.clock env.session.world) c s.provider
          → IsBalanced C A base (record s { provider = env.provider })
    unfolding create create_prepared
    create-IsBalanced s cluster_id c claim tags its session b named fresh room later =
        elim (Result-cases (prepare S cluster_id c claim its)) [
          | inl (prepared, e) ↦ rw e (
              create_on-IsBalanced s cluster_id c claim tags (N.clock session.world) prepared
                session b named fresh room (rw e at later))
          | inr (t, e) ↦ rw e b
        ]
