-- ===== src/CloudProvider/Undrifted.antt =====
-- A claim that Create of pkg/cloudprovider/cloudprovider.go has returned, and its drift from a node
-- class as the hash controller annotates it.
use karpenter_provider_huawe.Base.{◌≡◌, refl, sym, ◌∙◌, ap, String, Bool, some, Result, ok}
use karpenter_provider_huawe.Base.Maps.{Map, lookup}
use karpenter_provider_huawe.Apis.{CceNodeClassSpec, CceNodeClass}
use karpenter_provider_huawe.Ext.Scheduling.{Scheduling}
use karpenter_provider_huawe.Instance.Kubelet.{Quantities}
use karpenter_provider_huawe.Instance.Queries.{Instance}
use karpenter_provider_huawe.Drift.{HashInput, hash, annotate, are_static_fields_drifted}
use karpenter_provider_huawe.Drift.Migration.{changed, annotated-drift}
use karpenter_provider_huawe.CloudProvider.{CreatedClaim, claim_annotations}
use karpenter_provider_huawe.CloudProvider.Calls.{Providers, Env, create}
use karpenter_provider_huawe.CloudProvider.Creation.{create-Created}

ok-eq-ok : {A : Type 0} {a b : A} → ok a ≡ ok b → a ≡ b
ok-eq-ok h = cc

module _ (S : Scheduling) (digest : HashInput → String) where
  claim_annotations-drift :
      (nc : CceNodeClass) (i : Instance) (value : String) (annotations : Map String)
      → are_static_fields_drifted (claim_annotations S digest nc i) (annotate value annotations)
        ≡ changed (some (hash digest nc.spec)) value
  unfolding claim_annotations lookup
  claim_annotations-drift nc i value annotations =
      annotated-drift value (claim_annotations S digest nc i) annotations refl

  -- A claim that Create has returned is not drifted, by its static fields, from its class with the
  -- annotations that the hash controller gives it, as long as the hash of the spec is the same; from
  -- a class with another spec it has drifted exactly if that spec has another hash.
  pub create-are_static_fields_drifted :
      (Q : Quantities) {C : Type 0} (P : Providers S C) (configured : Bool)
      (kube_get : String → Result CceNodeClass) (claim : C) (class_name : String)
      (env : Env S Q digest P configured kube_get) (c : CreatedClaim S) (nc : CceNodeClass)
      (later_spec : CceNodeClassSpec) (annotations : Map String)
      → kube_get class_name ≡ ok nc
      → (create S Q digest P configured kube_get class_name claim env).0 ≡ ok c
      → are_static_fields_drifted c.annotations (annotate (hash digest later_spec) annotations)
        ≡ changed (some (hash digest nc.spec)) (hash digest later_spec)
  create-are_static_fields_drifted Q P configured kube_get claim class_name env c nc later_spec
        annotations there h =
      let made = create-Created S Q digest P configured kube_get claim class_name env c h in
      let same : made.class ≡ nc = ok-eq-ok (sym made.found ∙ there) in
      ap (λ a. are_static_fields_drifted a (annotate (hash digest later_spec) annotations))
        made.launched.claimed.annotations
      ∙ claim_annotations-drift made.class made.launched.instance_made (hash digest later_spec)
          annotations
      ∙ ap (λ (k : CceNodeClass). changed (some (hash digest k.spec)) (hash digest later_spec)) same
