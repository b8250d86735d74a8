-- ===== src/CloudProvider/Tests.antt =====
-- The theorems on Create, at providers that list one instance type and make one instance.
use karpenter_provider_huawe.Base.{
  ℕ, ◌≡◌, refl, String, true, [], ◌∷◌, some, ◌==◌, if◌then◌else◌, Result, ok, err, not_found,
}
use karpenter_provider_huawe.Apis.{CceNodeClass}
use karpenter_provider_huawe.Apis.Samples.{node_class}
use karpenter_provider_huawe.Ext.Samples.{value_lists}
use karpenter_provider_huawe.Subnet.Samples.{instance_type}
use karpenter_provider_huawe.Instance.Kubelet.{
  parse_quantity_as_milli_value, parse_quantity_as_binary_unit_value, parse_pid_value,
}
use karpenter_provider_huawe.Instance.Samples.{thousandths}
use karpenter_provider_huawe.Drift.{HashInput, hash, annotate, are_static_fields_drifted}
use karpenter_provider_huawe.Drift.Migration.{changed}
use karpenter_provider_huawe.CloudProvider.{
  CreatedClaim, claim_annotations, resolved_node_claim_labels,
}
use karpenter_provider_huawe.CloudProvider.Calls.{Providers, Env, create}
use karpenter_provider_huawe.CloudProvider.Creation.{Created, create-Created}
use karpenter_provider_huawe.CloudProvider.Undrifted.{create-are_static_fields_drifted}
use karpenter_provider_huawe.Instance.Queries.{Instance}

abbrev made : Instance
made = record {
  node_id = "n1";
  server_id = "s1";
  flavor = "c7.large.2";
  zone = "z1";
  subnet_id = "a";
}

abbrev providers : Providers value_lists ℕ
providers = record {
  World = ℕ;
  list_types = λ nc w. (ok (instance_type ∷ []), w);
  create_instance = λ nc claim its w. (ok made, w);
  get_instance = λ id w. ok made;
  list_instances = λ w. ok (some made ∷ []);
  delete_instance = λ id w. (ok tt, w);
}

abbrev kube_get : String → Result CceNodeClass
kube_get name = if name == "default" then ok node_class else err not_found

abbrev digest : HashInput → String
digest input = input.effective_ims

abbrev env : Env value_lists thousandths digest providers true kube_get
env = record { world = 0; events = [] }

abbrev created : CreatedClaim value_lists
unfolding claim_annotations resolved_node_claim_labels
created = record {
  labels = resolved_node_claim_labels value_lists instance_type made;
  annotations = claim_annotations value_lists digest node_class made;
  provider_id = "n1";
  image_id = "HCE OS 2.0";
  instance_type = instance_type;
}

created_lem :
    (create value_lists thousandths digest providers true kube_get "default" 7 env).0 ≡ ok created
unfolding create parse_quantity_as_milli_value parse_quantity_as_binary_unit_value parse_pid_value
created_lem = refl

create-Created_example :
    Created value_lists thousandths digest providers true kube_get 7 "default" created
create-Created_example =
    create-Created value_lists thousandths digest providers true kube_get 7 "default" env created
      created_lem

create-are_static_fields_drifted_example :
    are_static_fields_drifted created.annotations
      (annotate (hash digest node_class.spec) node_class.annotations)
    ≡ changed (some (hash digest node_class.spec)) (hash digest node_class.spec)
create-are_static_fields_drifted_example =
    create-are_static_fields_drifted value_lists digest thousandths providers true kube_get 7
      "default" env created node_class node_class.spec node_class.annotations refl created_lem
