-- ===== src/Controllers/Finalizer.antt =====
-- When Reconcile of pkg/controllers/nodeclass/controller.go gives up the finalizer of a class.
use karpenter_provider_huawe.Base.{
  ◌≡◌, refl, sym, ◌∙◌, ap, String, Bool, true, false, List, [], ◌∷◌, Option, none, some, not,
  if◌then◌else◌, Result, ok, err, Error, Bool-cases, inl, inr, arith,
}
use karpenter_provider_huawe.Apis.{CceNodeClass}
use karpenter_provider_huawe.Controllers.Requests.{Request}
use karpenter_provider_huawe.Controllers.NodeClass.{
  has_finalizer, Answers, reconcile_subnets, same_status, patch_status, reconcile_status,
  without_finalizer, finalize_with, reconcile,
}

-- The finalizer is given up by the patch that removes it.
abbrev pub Removed : Answers → CceNodeClass → Type 0
Removed a nc =
    (nc.deleting ≡ true)
    × (a.claims ≡ ok [])
    × (a.patch ≡ none)
    × ((reconcile a nc).1 ≡ without_finalizer nc)

finalize_with-removed :
    (claims : Result (List String)) (patch : Option Error) (nc : CceNodeClass)
    → has_finalizer nc.finalizers ≡ true
    → has_finalizer (finalize_with claims patch nc).1.finalizers ≡ false
    → (claims ≡ ok []) × (patch ≡ none) × ((finalize_with claims patch nc).1 ≡ without_finalizer nc)
unfolding finalize_with
finalize_with-removed (err e) patch nc f h =
    let impossible : ⊥ = ground (arith, f, h) in absurd impossible
finalize_with-removed (ok (claim ∷ claims)) patch nc f h =
    let impossible : ⊥ = ground (arith, f, h) in absurd impossible
finalize_with-removed (ok []) none nc f h = (refl, refl, refl)
finalize_with-removed (ok []) (some e) nc f h =
    let impossible : ⊥ = ground (arith, f, h) in absurd impossible

patch_status-finalizers :
    (p : Option Error) (r : Result Request) (after server : CceNodeClass)
    → (patch_status p r after server).1.finalizers ≡ server.finalizers
patch_status-finalizers none r after server = refl
patch_status-finalizers (some e) r after server = refl

reconcile_status-finalizers :
    (a : Answers) (before server : CceNodeClass)
    → (reconcile_status a before server).1.finalizers ≡ server.finalizers
unfolding reconcile_status
reconcile_status-finalizers a before server =
    elim (Bool-cases (same_status before (reconcile_subnets a.subnets before).1)) [
      | inl same ↦ rw same refl
      | inr changed ↦ rw changed (patch_status-finalizers a.status_patch _ _ server)
    ]

choose_first : {A : Type 0} (b : Bool) (x y : A) → b ≡ true → (if b then x else y) ≡ x
choose_first true x y e = refl
choose_first false x y e = cc

choose_second : {A : Type 0} (b : Bool) (x y : A) → b ≡ false → (if b then x else y) ≡ y
choose_second true x y e = cc
choose_second false x y e = refl

reconcile-deleting :
    (a : Answers) (nc : CceNodeClass)
    → has_finalizer nc.finalizers ≡ true
    → nc.deleting ≡ true
    → reconcile a nc ≡ finalize_with a.claims a.patch nc
unfolding reconcile
reconcile-deleting a nc f gone =
    choose_first nc.deleting _ _ gone
    ∙ choose_second (not (has_finalizer nc.finalizers)) _ _ (ap not f)

pub reconcile-live :
    (a : Answers) (nc : CceNodeClass)
    → has_finalizer nc.finalizers ≡ true
    → nc.deleting ≡ false
    → reconcile a nc ≡ reconcile_status a nc nc
unfolding reconcile
reconcile-live a nc f live =
    choose_second nc.deleting _ _ live
    ∙ choose_second (not (has_finalizer nc.finalizers)) _ _ (ap not f)

-- A round of the controller takes the termination finalizer from a class only if the class is being
-- deleted, the API server lists no claim of the class and accepts the patch; and then nothing but
-- this finalizer changes.
pub reconcile-Removed :
    (a : Answers) (nc : CceNodeClass)
    → has_finalizer nc.finalizers ≡ true
    → has_finalizer (reconcile a nc).1.finalizers ≡ false
    → Removed a nc
reconcile-Removed a nc f h = elim (Bool-cases nc.deleting) [
  | inl gone ↦
      let same = reconcile-deleting a nc f gone in
      let (unused, accepted, end) =
        finalize_with-removed a.claims a.patch nc f
          (ap (λ r. has_finalizer r.1.finalizers) (sym same) ∙ h) in
      (gone, unused, accepted, ap (λ r. r.1) same ∙ end)
  | inr live ↦
      let kept =
        ap (λ r. r.1.finalizers) (reconcile-live a nc f live)
        ∙ reconcile_status-finalizers a nc nc in
      let impossible : ⊥ = ground (arith, f, h, ap has_finalizer kept) in absurd impossible
]
