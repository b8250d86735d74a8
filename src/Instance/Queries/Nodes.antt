-- ===== src/Instance/Queries/Nodes.antt =====
-- What the queries of pkg/providers/instance/instance.go say of the nodes of CCE.
use karpenter_provider_huawe.Base.{
  ◌≡◌, refl, sym, ap, String, Bool, List, [], ◌∷◌, Option, none, some, ◌==◌, not, keep_if, map,
  Result, ok, err, Bool-cases, inl, inr, Option-cases, >>=-eq-ok,
}
use karpenter_provider_huawe.Apis.{CceNodeClass}
use karpenter_provider_huawe.Instance.Kubelet.{Quantities, resolve_create_node_kubelet}
use karpenter_provider_huawe.Instance.NodeSpec.{NodeClaim, NodeSpec, node_spec_for_candidate}
use karpenter_provider_huawe.Instance.Create.{NodeStatus, instance_of}
use karpenter_provider_huawe.Base.Maps.{Map}
use karpenter_provider_huawe.Instance.Queries.{
  with_spec, Instance, CceNode, text_or_empty, instance_from_cce_node_parts, listed_instances,
  shown,
}

-- Whether CCE gives a node a name.
abbrev pub has_uid : CceNode → Bool
has_uid n = not (text_or_empty n.uid == "")

node_id-uid : (n : CceNode) → (instance_from_cce_node_parts n).node_id ≡ text_or_empty n.uid
unfolding instance_from_cce_node_parts
node_id-uid n = elim (Option-cases n.spec) [
  | inl e ↦ rw (e, with_spec) refl
  | inr (s, e) ↦ rw (e, with_spec) refl
]

-- The instances that List returns are those of the nodes with a uid, in their order.
pub listed_instances-keep_if :
    (ns : List CceNode)
    → listed_instances ns ≡ map instance_from_cce_node_parts (keep_if has_uid ns)
unfolding listed_instances
listed_instances-keep_if [] = refl
listed_instances-keep_if (n ∷ ns) = elim (Bool-cases (text_or_empty n.uid == "")) [
  | inl e ↦ rw (node_id-uid n, e) (listed_instances-keep_if ns)
  | inr e ↦ rw (node_id-uid n, e) (cc (listed_instances-keep_if ns))
]

-- Status.ServerId of an answer to CreateNode.
abbrev pub server_of : Option NodeStatus → Option String
server_of none = none
server_of (some t) = t.server_id

set_subnet : String → Result Instance → Result Instance
set_subnet subnet_id (ok i) = ok (record i { subnet_id = subnet_id })
set_subnet subnet_id (err e) = err e

-- The placement in the specification that is sent.
placement : String × String × String → Result NodeSpec → String × String × String
placement other (ok s) = (s.flavor, s.az, s.subnet_id)
placement other (err e) = other

spec-placement :
    (Q : Quantities) {R : Type 0} (c : CceNodeClass) (claim : NodeClaim R) (tags : Map String)
    (flavor zone subnet_id os_alias : String) (spec : NodeSpec)
    → node_spec_for_candidate Q c claim tags flavor zone subnet_id os_alias ≡ ok spec
    → ◌≡◌ {A = String × String × String}
        (flavor, zone, subnet_id)
        (spec.flavor, spec.az, spec.subnet_id)
unfolding node_spec_for_candidate placement
spec-placement Q c claim tags flavor zone subnet_id os_alias spec h =
    let (params, resolved, built) = >>=-eq-ok (resolve_create_node_kubelet Q c.spec.kubelet) _ h in
    ap (placement (flavor, zone, subnet_id)) built

-- Once CCE shows the node with the specification that was sent for it, Get reports what Create has
-- reported for it, and the subnet that was asked for.
pub shown-instance_of :
    (Q : Quantities) {R : Type 0} (c : CceNodeClass) (claim : NodeClaim R) (tags : Map String)
    (flavor zone subnet_id os_alias uid : String) (status : Option NodeStatus) (spec : NodeSpec)
    (i : Instance)
    → node_spec_for_candidate Q c claim tags flavor zone subnet_id os_alias ≡ ok spec
    → instance_of flavor zone
        (some (record { metadata = some (record { uid = some uid }); status = status }))
      ≡ ok i
    → shown (
        ok (
          some (record {
            uid = some uid;
            spec = some (record {
              flavor = spec.flavor;
              az = spec.az;
              primary_subnet_id = some spec.subnet_id;
            });
            server_id = server_of status;
          })))
      ≡ ok (record i { subnet_id = subnet_id })
unfolding shown instance_of set_subnet
shown-instance_of Q c claim tags flavor zone subnet_id os_alias uid status spec i h k =
    let placed = spec-placement Q c claim tags flavor zone subnet_id os_alias spec h in
    rw (sym (ap (λ x. x.0) placed), sym (ap (λ x. x.1) placed), sym (ap (λ x. x.2) placed))
      (same status k)
  where
    same :
        (t : Option NodeStatus)
        → instance_of flavor zone
            (some (record { metadata = some (record { uid = some uid }); status = t }))
          ≡ ok i
        → shown (
            ok (
              some (record {
                uid = some uid;
                spec =
                    some
                      (record { flavor = flavor; az = zone; primary_subnet_id = some subnet_id });
                server_id = server_of t;
              })))
          ≡ ok (record i { subnet_id = subnet_id })
    same none e = ap (set_subnet subnet_id) e
    same (some t) e = elim (Option-cases t.server_id) [
      | inl q ↦ rw q (ap (set_subnet subnet_id) (rw q at e))
      | inr (id, q) ↦ rw q (ap (set_subnet subnet_id) (rw q at e))
    ]
