-- ===== src/Operator/Launches.antt =====
-- Create of pkg/cloudprovider/cloudprovider.go on the providers of pkg/operator/operator.go, and the
-- addresses in flight of the subnet provider.
use karpenter_provider_huawe.Base.{
  ℕ, ◌+◌, ◌≤◌, ◌≡◌, refl, sym, subst, String, true, List, [], Result, ok, err,
}
use karpenter_provider_huawe.Base.Int.{ℤ, pos_part, neg_part, IsInt32}
use karpenter_provider_huawe.Apis.{CceNodeClass}
use karpenter_provider_huawe.Ext.Scheduling.{InstanceType}
use karpenter_provider_huawe.Subnet.{LaunchSubnet}
use karpenter_provider_huawe.Subnet.Accounts.{outstanding}
use karpenter_provider_huawe.Subnet.Selection.{Named}
use karpenter_provider_huawe.Subnet.Reservations.{System, IsBalanced}
use karpenter_provider_huawe.Instance.Queries.{Instance}
use karpenter_provider_huawe.Instance.Create.Inflight.{CountsCached, create-IsBalanced}
use karpenter_provider_huawe.Drift.{HashInput}
use karpenter_provider_huawe.CloudProvider.{resolve_node_class}
use karpenter_provider_huawe.CloudProvider.Calls.{
  Env, check_node_class, with_instance, with_types, with_image, with_class, create,
}
use karpenter_provider_huawe.Operator.Clients.{Services, create_api}
use karpenter_provider_huawe.Operator.{
  Operator, Sched, Claims, now, list_types, create_instance, providers,
}

module _ (V : Services) (base : String → ℤ) (int32 : (id : String) → IsInt32 (base id))
    (held : List LaunchSubnet) where
  -- The subnet provider of an operator, and the launches that are under way.
  abbrev pub with_held : Operator V → System V.listings V.counts base
  with_held o = record { provider = o.subnets; held = held }

  abbrev pub Balanced : Operator V → Type 0
  Balanced o = IsBalanced V.listings V.counts base (with_held o)

  -- The counts of the subnets of a class are cached at a time.
  abbrev pub Cached : ℕ → CceNodeClass → Operator V → Type 0
  Cached time nc o = CountsCached (Sched V) V.listings V.counts base int32 time nc o.subnets

  -- What the launches under way have reserved is no more than the counts.
  abbrev pub HasRoom : Type 0
  HasRoom = (id : String) → neg_part (base id) + outstanding id held ≤ pos_part (base id) + 1

  create_instance-Balanced :
      (nc : CceNodeClass) (claim : Claims V) (its : List (InstanceType (Sched V))) (o : Operator V)
      → Named nc.status_subnets
      → HasRoom
      → Balanced o
      → Cached (now V o) nc o
      → Cached (now V (create_instance V nc claim its o).1) nc o
      → Balanced (create_instance V nc claim its o).1
  unfolding create_instance
  create_instance-Balanced nc claim its o named room b fresh later =
      create-IsBalanced (Sched V) V.listings V.counts base int32 (create_api V.nodes) V.marks
        V.quantities (with_held o) V.cluster_id nc claim [] its
        (record { world = o.nodes; offerings = o.types.offering_availability_cache }) b named fresh
        room later

  module _ (digest : HashInput → String) (kube_get : String → Result CceNodeClass)
      (nc : CceNodeClass) (claim : Claims V) where
    -- What follows the instance types does to the operator what the instance provider does.
    with_instance-world :
        (image_id : String) (its : List (InstanceType (Sched V)))
        (made : Result Instance × Operator V)
        → (with_instance
            (Sched V)
            V.quantities
            digest
            (providers V)
            true
            kube_get
            image_id
            nc
            its
            made).1
          ≡ made.1
    unfolding with_instance
    with_instance-world image_id its (ok i, o) = refl
    with_instance-world image_id its (err e, o) = refl

    -- The node class of a launch has its counts cached at its begin and its end.
    abbrev During : Operator V → Operator V → Type 0
    During o p = Named nc.status_subnets × HasRoom × Cached (now V o) nc o × Cached (now V p) nc o

    with_types-Balanced :
        (image_id : String) (answer : Result (List (InstanceType (Sched V))) × Operator V)
        → let p =
            (with_types
              (Sched V)
              V.quantities
              digest
              (providers V)
              true
              kube_get
              claim
              image_id
              nc
              answer).1 in
          During answer.1 p → Balanced answer.1 → Balanced p
    unfolding with_types
    with_types-Balanced image_id (err e, o) d b = b
    with_types-Balanced image_id (ok its, o) (named, room, fresh, later) b =
        let same = with_instance-world image_id its (create_instance V nc claim its o) in
        subst Balanced (sym same) (
          create_instance-Balanced nc claim its o named room b fresh
            (subst (λ p. Cached (now V p) nc o) same later))

    with_image-Balanced :
        (image_id : Result String) (o : Operator V)
        → let p =
            (with_image
              (Sched V)
              V.quantities
              digest
              (providers V)
              true
              kube_get
              claim
              nc
              image_id
              o).1 in
          During o p → Balanced o → Balanced p
    unfolding with_image list_types
    with_image-Balanced (err e) o d b = b
    with_image-Balanced (ok image_id) o d b = with_types-Balanced image_id (list_types V nc o) d b

    -- A Create of the cloud provider leaves the books of the subnet provider balanced, however it
    -- ends, with no address in flight more than before. The node class is found, its subnets are
    -- named and their counts are cached at its begin and end, and what other launches have reserved
    -- is no more than the counts.
    pub create-Balanced :
        (class_name : String) (env : Env (Sched V) V.quantities digest (providers V) true kube_get)
        → resolve_node_class kube_get class_name ≡ ok nc
        → let p =
            (create
              (Sched V)
              V.quantities
              digest
              (providers V)
              true
              kube_get
              class_name
              claim
              env).1.world in
          During env.world p → Balanced env.world → Balanced p
    unfolding create with_class
    create-Balanced class_name env found d b = rw found (
        with_image-Balanced (check_node_class (Sched V) V.quantities digest nc) env.world
          (rw found at d) b)
