-- ===== src/Controllers/NodeClass.antt =====
-- pkg/controllers/nodeclass/controller.go and subnet.go: the finalizer and the status of node
-- classes.
use Prim.Native.String.{compare}
use text.Mathlib.Text.{is_lt}
use karpenter_provider_huawe.Base.{
  String, Bool, true, false, List, [], ◌∷◌, ◌++◌, map, Option, none, some, ◌==◌, ◌&&◌, not,
  if◌then◌else◌, any, reject, Result, ok, err, Error, wrapped,
}
use karpenter_provider_huawe.Base.Int.{eqb_ℤ, ltb_ℤ}
use karpenter_provider_huawe.Base.Sort.{sort_slice}
use karpenter_provider_huawe.Apis
use karpenter_provider_huawe.Apis.{CceNodeClass}
use karpenter_provider_huawe.Subnet.{VpcSubnet}
use karpenter_provider_huawe.CloudProvider.{is_not_found}
use karpenter_provider_huawe.Controllers.Requests.{
  Request, no_request, requeued, after_seconds, is_conflict,
}

abbrev pub termination_finalizer : String
termination_finalizer = "karpenter.sh/termination"

abbrev pub has_finalizer : List String → Bool
has_finalizer finalizers = any (λ f. f == termination_finalizer) finalizers

-- What a reconciliation ends with.
pub data Answer : Type 0 where
  asks : Request → Answer
  fails : Error → List Error → Answer

-- client.IgnoreNotFound
abbrev pub unless_not_found : Error → List Error
unless_not_found e = if is_not_found e then [] else e ∷ []

abbrev pub finish : Result Request → List Error → Answer
finish (err e) es = fails e es
finish (ok r) [] = asks r
finish (ok r) (e ∷ es) = fails e es

-- More available addresses first, then by the id.
abbrev pub before_subnet : VpcSubnet → VpcSubnet → Bool
before_subnet a b =
    if not (eqb_ℤ a.available_ip_address_count b.available_ip_address_count)
    then ltb_ℤ b.available_ip_address_count a.available_ip_address_count
    else is_lt (compare a.id b.id)

abbrev pub status_subnet : VpcSubnet → Apis.Subnet
status_subnet n = record { id = n.id }

-- Reconcile of the subnets, with what the subnet provider lists.
unfoldable pub reconcile_subnets :
    Result (List VpcSubnet) → CceNodeClass → Result Request × CceNodeClass
unfolding sort_slice
reconcile_subnets (err e) nc = (err (wrapped "getting subnets, %w" e), nc)
reconcile_subnets (ok []) nc =
    (ok (after_seconds 60), record nc { status_subnets = []; subnets_ready = false })
reconcile_subnets (ok (n ∷ ns)) nc = (
  ok (after_seconds 60),
  record nc {
    status_subnets = map status_subnet (sort_slice before_subnet (n ∷ ns));
    subnets_ready = true;
  },
)

-- equality.Semantic.DeepEqual of what the reconcilers may change
abbrev pub same_bool : Bool → Bool → Bool
same_bool true b = b
same_bool false b = not b

unfoldable pub same_subnets : List Apis.Subnet → List Apis.Subnet → Bool
same_subnets [] [] = true
same_subnets [] (n ∷ ns) = false
same_subnets (m ∷ ms) [] = false
same_subnets (m ∷ ms) (n ∷ ns) = (m.id == n.id) && same_subnets ms ns

abbrev pub same_status : CceNodeClass → CceNodeClass → Bool
unfolding same_subnets
same_status a b =
    same_bool a.subnets_ready b.subnets_ready && same_subnets a.status_subnets b.status_subnets

-- What the API server and the subnet provider answer, where they are asked: to the patches (`none`
-- for no error), to the list of the claims of the class, by their names, and to the list of subnets.
pub record Answers : Type 0 where
  pub patch : Option Error
  pub status_patch : Option Error
  pub claims : Result (List String)
  pub subnets : Result (List VpcSubnet)

-- The patch of the status, after the reconcilers have made `after` of `before`: the class that the
-- API server then has.
abbrev pub patch_status :
    Option Error → Result Request → CceNodeClass → CceNodeClass → Answer × CceNodeClass
patch_status none r after server = (
  finish r [],
  record server { status_subnets = after.status_subnets; subnets_ready = after.subnets_ready },
)
patch_status (some e) r after server =
    (if is_conflict e then asks requeued else finish r (unless_not_found e), server)

unfoldable pub reconcile_status : Answers → CceNodeClass → CceNodeClass → Answer × CceNodeClass
unfolding reconcile_subnets same_status is_conflict is_not_found
reconcile_status a before server =
    let (r, after) = reconcile_subnets a.subnets before in
    if same_status before after
    then (finish r [], server)
    else patch_status a.status_patch r after server

abbrev pub with_finalizer : CceNodeClass → CceNodeClass
with_finalizer nc = record nc { finalizers = nc.finalizers ++ (termination_finalizer ∷ []) }

-- After the patch that adds the finalizer; an error that says the class is not found is passed over.
unfoldable pub after_finalizer_patch : Option Error → Answers → CceNodeClass → Answer × CceNodeClass
unfolding reconcile_status is_conflict is_not_found
after_finalizer_patch none a nc = reconcile_status a (with_finalizer nc) (with_finalizer nc)
after_finalizer_patch (some e) a nc =
    if is_not_found e
    then reconcile_status a (with_finalizer nc) nc
    else if is_conflict e
    then (asks requeued, nc)
    else (fails e [], nc)

abbrev pub without_finalizer : CceNodeClass → CceNodeClass
without_finalizer nc = record nc {
  finalizers = reject (λ f. f == termination_finalizer) nc.finalizers;
}

abbrev pub after_removal : Option Error → CceNodeClass → Answer × CceNodeClass
after_removal none nc = (asks no_request, without_finalizer nc)
after_removal (some e) nc = (
  if is_conflict e
      then asks requeued
      else finish (ok no_request)
          (unless_not_found (wrapped "removing termination finalizer, %w" e)),
  nc,
)

-- finalize, by the claims that are listed, where the class has the finalizer.
unfoldable pub finalize_with :
    Result (List String) → Option Error → CceNodeClass → Answer × CceNodeClass
unfolding is_conflict is_not_found
finalize_with (err e) patch nc =
    (fails (wrapped "listing nodeclaims that are using nodeclass, %w" e) [], nc)
finalize_with (ok (claim ∷ claims)) patch nc = (asks (after_seconds 600), nc)
finalize_with (ok []) patch nc = after_removal patch nc

-- Reconcile, and the class that the API server has after it.
unfoldable pub reconcile : Answers → CceNodeClass → Answer × CceNodeClass
unfolding finalize_with after_finalizer_patch reconcile_status
reconcile a nc =
    if nc.deleting
    then if not (has_finalizer nc.finalizers)
      then (asks no_request, nc)
      else finalize_with a.claims a.patch nc
    else if not (has_finalizer nc.finalizers)
    then after_finalizer_patch a.patch a nc
    else reconcile_status a nc nc
