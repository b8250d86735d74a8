-- ===== src/InstanceType/Validated.antt =====
-- What ValidateForCreateNode of pkg/apis/v1alpha1/ccenodeclass.go gives the providers.
use karpenter_provider_huawe.Base.{◌≤◌, ◌≡◌, true, some, ok, arith, is_set}
use karpenter_provider_huawe.Apis.{CceNodeClassSpec, validate_for_create_node}
use karpenter_provider_huawe.Instance.NodeSpec.{resolve_login}
use karpenter_provider_huawe.InstanceType.Storage.{managed_size_gib}

-- A spec that passes ValidateForCreateNode has a login to send, and the volume that the ephemeral
-- storage of its nodes is on has at least 20 GiB.
pub validate_for_create_node-usable :
    (s : CceNodeClassSpec)
    → validate_for_create_node (some s) ≡ ok (tt {0})
    → (is_set (resolve_login (some s.login)) ≡ true)
      × (20 ≤ managed_size_gib s.block_device_mappings.k8s)
unfolding validate_for_create_node resolve_login managed_size_gib
validate_for_create_node-usable s h = (ground (arith, h), ground (arith, h))
