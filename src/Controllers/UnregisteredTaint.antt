-- ===== src/Controllers/UnregisteredTaint.antt =====
-- pkg/controllers/nodeclaim/unregisteredtaint/controller.go: the taint that registered nodes may keep
-- by a race is removed.
use karpenter_provider_huawe.Base.{
  String, Bool, true, false, List, [], ◌∷◌, Option, none, some, ◌==◌, ◌&&◌, not, if◌then◌else◌,
  find, is_set, reject, Result, ok, err, Error, wrapped,
}
use karpenter_provider_huawe.Base.Maps.{Map, lookup}
use karpenter_provider_huawe.Instance.NodeSpec.{Taint, unregistered_no_execute_taint, match_taint}
use karpenter_provider_huawe.Controllers.Requests.{Request, no_request, requeued, is_conflict}

-- corev1.Node, as far as the controller reads it.
pub record Node : Type 0 where
  pub labels : Map String
  pub taints : List Taint

abbrev pub is_stale_taint : Taint → Bool
is_stale_taint t = match_taint t unregistered_no_execute_taint

abbrev pub is_true : Option String → Bool
is_true none = false
is_true (some v) = v == "true"

-- isKarpenterRegisteredWithStaleTaint
unfoldable pub is_karpenter_registered_with_stale_taint : Node → Bool
unfolding lookup
is_karpenter_registered_with_stale_taint node =
    is_true (lookup "karpenter.sh/registered" node.labels)
    && is_set (find is_stale_taint node.taints)

-- equality.Semantic.DeepEqual of lists of taints
abbrev pub same_taint : Taint → Taint → Bool
same_taint t u = (t.key == u.key) && (t.value == u.value) && (t.effect == u.effect)

unfoldable pub same_taints : List Taint → List Taint → Bool
same_taints [] [] = true
same_taints [] (u ∷ us) = false
same_taints (t ∷ ts) [] = false
same_taints (t ∷ ts) (u ∷ us) = same_taint t u && same_taints ts us

abbrev pub without_stale_taint : Node → Node
without_stale_taint node = record node { taints = reject is_stale_taint node.taints }

-- After the patch, with the error it was answered with: the node that the API server then has.
abbrev pub patched : Node → Option Error → Result Request × Node
patched node none = (ok no_request, without_stale_taint node)
patched node (some e) = (
  if is_conflict e then ok requeued else err (wrapped "removing stale unregistered taint, %w" e),
  node,
)

-- Reconcile, with what the API server answers if it is asked to patch the node.
unfoldable pub reconcile : Option Error → Node → Result Request × Node
unfolding is_karpenter_registered_with_stale_taint same_taints is_conflict
reconcile answer node =
    if not (is_karpenter_registered_with_stale_taint node)
    then (ok no_request, node)
    else if same_taints node.taints (without_stale_taint node).taints
    then (ok no_request, node)
    else patched node answer

-- The node after a sequence of reconciliations, by what each is answered.
unfoldable pub reconciled : List (Option Error) → Node → Node
unfolding reconcile
reconciled [] node = node
reconciled (answer ∷ answers) node = reconciled answers (reconcile answer node).1
