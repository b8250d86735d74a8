-- ===== src/CloudProvider/Creation.antt =====
-- When Create of pkg/cloudprovider/cloudprovider.go returns a claim, and which.
use karpenter_provider_huawe.Base.{
  ◌≡◌, refl, sym, ◌∙◌, ap, subst, String, Bool, true, false, List, [], ◌∷◌, Option, none, some,
  ◌==◌, if◌then◌else◌, find, is_empty, Result, ok, err, IfOk, IsIn, ok_ne_err, none_ne_some,
  >>=-eq-ok, Bool-cases, Option-cases, Result-cases, inl, inr, arith,
}
use karpenter_provider_huawe.Apis.{
  CceNodeClass, resolve_ims_for_create_node, validate_for_create_node,
}
use karpenter_provider_huawe.Ext.Scheduling.{Scheduling, InstanceType}
use karpenter_provider_huawe.Instance.Kubelet.{Quantities, validate_kubelet_for_create_node}
use karpenter_provider_huawe.Instance.Queries.{Instance}
use karpenter_provider_huawe.Drift.{HashInput}
use karpenter_provider_huawe.CloudProvider.{
  is_not_found, if_not_deleting, resolve_node_class, CreatedClaim, claim_of, claim_annotations,
}
use karpenter_provider_huawe.CloudProvider.Calls.{
  Providers, Env, check_node_class, with_instance, with_types, with_image, with_class, create,
}

-- The value of a result or an option, or the other one.
abbrev from_ok {ℓ} : {A : Type ℓ} → A → Result A → A
from_ok other (ok a) = a
from_ok other (err e) = other

abbrev from_some {ℓ} : {A : Type ℓ} → A → Option A → A
from_some other (some a) = a
from_some other none = other

IfOk-map :
    {A : Type 0} (F G : A → Type 0) → ((a : A) → F a → G a) → (r : Result A) → IfOk F r → IfOk G r
IfOk-map F G f (ok a) h = f a h
IfOk-map F G f (err e) h = tt

if-IfOk :
    {A W : Type 0} (F : A → Type 0) (b : Bool) (x y : Result A × W)
    → IfOk F x.0
    → IfOk F y.0
    → IfOk F (if b then x else y).0
if-IfOk F true x y h k = h
if-IfOk F false x y h k = k

module _ (S : Scheduling) (Q : Quantities) (digest : HashInput → String) where
  -- What the checks of Create make sure of, with the image id that they give.
  pub record Checked (nc : CceNodeClass) (image_id : String) : Type 0 where
    pub ready : nc.subnets_ready ≡ true
    pub with_subnets : is_empty nc.status_subnets ≡ false
    pub image : resolve_ims_for_create_node (some nc.spec) ≡ ok image_id
    pub valid : validate_for_create_node (some nc.spec) ≡ ok tt
    pub kubelet : validate_kubelet_for_create_node Q nc.spec.kubelet ≡ ok tt

  check_node_class-Checked :
      (nc : CceNodeClass) (image_id : String)
      → check_node_class S Q digest nc ≡ ok image_id
      → Checked nc image_id
  unfolding check_node_class
  check_node_class-Checked nc image_id h = record {
    ready = ground (arith, h);
    with_subnets = ground (arith, h);
    image = ground (arith, h);
    valid = ground (arith, h);
    kubelet = ground (arith, h);
  }

  -- How the claim comes from the instance and the instance types.
  pub record Claimed (nc : CceNodeClass) (its : List (InstanceType S)) (i : Instance)
      (image_id : String) (c : CreatedClaim S) : Type 0 where
    pub named : (i.node_id == "") ≡ false
    pub id : c.provider_id ≡ i.node_id
    pub image : c.image_id ≡ image_id
    pub annotations : c.annotations ≡ claim_annotations S digest nc i
    pub listed : IsIn c.instance_type its
    pub flavor : (c.instance_type.name == i.flavor) ≡ true

  find-IsIn :
      {A : Type 0} (p : A → Bool) (xs : List A) (x : A)
      → find p xs ≡ some x
      → IsIn x xs × (p x ≡ true)
  find-IsIn p [] x h = absurd (none_ne_some h)
  find-IsIn p (y ∷ ys) x h = elim (Bool-cases (p y)) [
    | inl e ↦
        let same : y ≡ x = ap (from_some y) (rw e at h) in
        (inl (sym same), subst (λ z. p z ≡ true) same e)
    | inr e ↦ let rest = find-IsIn p ys x (rw e at h) in (inr rest.0, rest.1)
  ]

  claim_of-Claimed :
      (image_id : String) (nc : CceNodeClass) (its : List (InstanceType S)) (i : Instance)
      → IfOk (Claimed nc its i image_id) (claim_of S digest image_id nc its i)
  unfolding claim_of
  claim_of-Claimed image_id nc its i = elim (Bool-cases (i.node_id == "")) [
    | inl unnamed ↦ rw unnamed tt
    | inr named ↦ rw named (elim (Option-cases (find (λ it. it.name == i.flavor) its)) [
      | inl missing ↦ rw missing tt
      | inr (it, found) ↦ rw found (
          let (listed, flavor) = find-IsIn (λ it. it.name == i.flavor) its it found in
          record {
            named = named;
            id = refl;
            image = refl;
            annotations = refl;
            listed = listed;
            flavor = flavor;
          })
    ])
  ]

  module _ {C : Type 0} (P : Providers S C) (configured : Bool)
      (kube_get : String → Result CceNodeClass) (claim : C) where
    -- The calls that a claim comes from, after the checks of the class.
    pub record Launched (nc : CceNodeClass) (image_id : String) (c : CreatedClaim S) : Type 0 where
      pub its : List (InstanceType S)
      pub instance_made : Instance
      pub before_list : P.World
      pub before_create : P.World
      pub listed : P.list_types nc before_list ≡ (ok its, before_create)
      pub made : (P.create_instance nc claim its before_create).0 ≡ ok instance_made
      pub claimed : Claimed nc its instance_made image_id c

    with_instance-Launched :
        (nc : CceNodeClass) (image_id : String) (its : List (InstanceType S)) (w w' : P.World)
        (x : Result Instance × P.World)
        → P.list_types nc w ≡ (ok its, w')
        → P.create_instance nc claim its w' ≡ x
        → IfOk
            (Launched nc image_id)
            (with_instance S Q digest P configured kube_get image_id nc its x).0
    unfolding with_instance
    with_instance-Launched nc image_id its w w' (err e, v) l m = tt
    with_instance-Launched nc image_id its w w' (ok i, v) l m =
        IfOk-map (Claimed nc its i image_id) (Launched nc image_id)
          (λ c claimed. record {
            its = its;
            instance_made = i;
            before_list = w;
            before_create = w';
            listed = l;
            made = ap (λ r. r.0) m;
            claimed = claimed;
          })
          (claim_of S digest image_id nc its i) (claim_of-Claimed image_id nc its i)

    with_types-Launched :
        (nc : CceNodeClass) (image_id : String) (w : P.World)
        (x : Result (List (InstanceType S)) × P.World)
        → P.list_types nc w ≡ x
        → IfOk
            (Launched nc image_id)
            (with_types S Q digest P configured kube_get claim image_id nc x).0
    unfolding with_types
    with_types-Launched nc image_id w (err e, w') l = tt
    with_types-Launched nc image_id w (ok its, w') l =
        if-IfOk (Launched nc image_id) configured
          (with_instance S Q digest P configured kube_get image_id nc its
            (P.create_instance nc claim its w'))
          _ (with_instance-Launched nc image_id its w w' _ l refl) tt

    -- What a created claim says: of the class, that it is there, not being deleted and fit for
    -- nodes; and of the instance, that the claim is its.
    pub record Created (class_name : String) (c : CreatedClaim S) : Type 0 where
      pub class : CceNodeClass
      pub image_id : String
      pub found : kube_get class_name ≡ ok class
      pub live : class.deleting ≡ false
      pub checked : Checked class image_id
      pub launched : Launched class image_id c

    with_class-Created :
        (class_name : String) (r : Result CceNodeClass) (env : Env S Q digest P configured kube_get)
        → ((nc : CceNodeClass) → r ≡ ok nc → (kube_get class_name ≡ ok nc) × (nc.deleting ≡ false))
        → IfOk (Created class_name) (with_class S Q digest P configured kube_get claim r env).0
    unfolding with_class with_image
    with_class-Created class_name (err e) env resolved = elim (Bool-cases (is_not_found e)) [
      | inl missing ↦ rw missing tt
      | inr failed ↦ rw failed tt
    ]
    with_class-Created class_name (ok nc) env resolved =
        elim (Result-cases (check_node_class S Q digest nc)) [
          | inl (image_id, passed) ↦ rw passed (
              IfOk-map (Launched nc image_id) (Created class_name)
                (λ c launched. record {
                  class = nc;
                  image_id = image_id;
                  found = (resolved nc refl).0;
                  live = (resolved nc refl).1;
                  checked = check_node_class-Checked nc image_id passed;
                  launched = launched;
                })
                (with_types S Q digest P configured kube_get claim image_id nc
                  (P.list_types nc env.world)).0
                (with_types-Launched nc image_id env.world _ refl))
          | inr (e, refused) ↦ rw refused tt
        ]

    resolve_node_class-live :
        (class_name : String) (nc : CceNodeClass)
        → resolve_node_class kube_get class_name ≡ ok nc
        → (kube_get class_name ≡ ok nc) × (nc.deleting ≡ false)
    unfolding resolve_node_class
    resolve_node_class-live class_name nc h =
        let (found, there, kept) = >>=-eq-ok (kube_get class_name) if_not_deleting h in
        elim (Bool-cases found.deleting) [
          | inl gone ↦ absurd (ok_ne_err (sym (rw gone at kept)))
          | inr live ↦
              let same : found ≡ nc = ap (from_ok found) (rw live at kept) in
              (there ∙ ap ok same, subst (λ c. c.deleting ≡ false) same live)
        ]

    -- Create returns a claim only for a class that is there, is not being deleted, has its subnets
    -- ready and passes every check of its spec and its kubelet settings; the claim is that of the
    -- instance made for one of the listed instance types: it has the node's id, which is not empty,
    -- the image of the class, and as annotations the ids and the hash of the class.
    pub create-Created :
        (class_name : String) (env : Env S Q digest P configured kube_get) (c : CreatedClaim S)
        → (create S Q digest P configured kube_get class_name claim env).0 ≡ ok c
        → Created class_name c
    unfolding create
    create-Created class_name env c h = subst (IfOk (Created class_name)) h (
        with_class-Created class_name (resolve_node_class kube_get class_name) env
          (resolve_node_class-live class_name))
