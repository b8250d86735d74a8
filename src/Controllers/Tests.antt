-- ===== src/Controllers/Tests.antt =====
-- The theorems on the controllers, at a node with the stale taint and at a class that is deleted.
use karpenter_provider_huawe.Base.{◌≡◌, refl, true, false, [], ◌∷◌, none, some, ok, conflict, List}
use karpenter_provider_huawe.Apis.{CceNodeClass}
use karpenter_provider_huawe.Apis.Samples.{node_class}
use karpenter_provider_huawe.Instance.NodeSpec.{unregistered_no_execute_taint}
use karpenter_provider_huawe.Controllers.UnregisteredTaint.{
  Node, is_karpenter_registered_with_stale_taint, reconciled,
}
use karpenter_provider_huawe.Controllers.Untainted.{cleaned, reconciled-cleaned}
use karpenter_provider_huawe.Controllers.NodeClass
use karpenter_provider_huawe.Controllers.NodeClass.{Answers, termination_finalizer}
use karpenter_provider_huawe.Base.Int.{pos}
use karpenter_provider_huawe.Subnet.{VpcSubnet}
use karpenter_provider_huawe.Controllers.SubnetStatus.{Reported, reconcile-Reported}
use karpenter_provider_huawe.Controllers.Finalizer.{Removed, reconcile-Removed}

abbrev node : Node
node = record {
  labels = ("karpenter.sh/registered", "true") ∷ [];
  taints =
      record { key = "dedicated"; value = "gpu"; effect = "NoSchedule" }
      ∷ unregistered_no_execute_taint
      ∷ [];
}

reconciled-cleaned_example :
    (reconciled (some conflict ∷ none ∷ []) node ≡ cleaned node)
    × (is_karpenter_registered_with_stale_taint (reconciled (some conflict ∷ none ∷ []) node)
        ≡ false)
reconciled-cleaned_example = reconciled-cleaned (some conflict ∷ []) [] node

abbrev deleted_class : CceNodeClass
deleted_class = record node_class {
  deleting = true;
  finalizers = "other" ∷ termination_finalizer ∷ [];
}

abbrev answers : Answers
answers = record { patch = none; status_patch = none; claims = ok []; subnets = ok [] }

finalizer_gone :
    NodeClass.has_finalizer (NodeClass.reconcile answers deleted_class).1.finalizers ≡ false
unfolding NodeClass.reconcile
finalizer_gone = refl

reconcile-Removed_example : Removed answers deleted_class
reconcile-Removed_example = reconcile-Removed answers deleted_class refl finalizer_gone

abbrev live_class : CceNodeClass
live_class = record node_class { finalizers = termination_finalizer ∷ [] }

abbrev listed : List VpcSubnet
listed =
    record { id = "a"; name = "nodes"; available_ip_address_count = pos 10 }
    ∷ record { id = "b"; name = "nodes"; available_ip_address_count = pos 90 }
    ∷ []

abbrev with_listed : Answers
with_listed = record { patch = none; status_patch = none; claims = ok []; subnets = ok listed }

reconcile-Reported_example : Reported listed (NodeClass.reconcile with_listed live_class).1
reconcile-Reported_example = reconcile-Reported with_listed live_class listed refl refl refl refl
