-- ===== src/Controllers/SubnetStatus.antt =====
-- The status that Reconcile of pkg/controllers/nodeclass/controller.go and subnet.go gives a class.
use karpenter_provider_huawe.Base.{
  ◌≡◌, refl, ◌∙◌, ap, Bool, true, false, List, [], ◌∷◌, map, none, ◌==◌, not, is_empty, eq_iff, ok,
  Bool-cases, inl, inr, arith,
}
use mathlib.Core.List.{Perm}
use mathlib.Core.List.Perm
use karpenter_provider_huawe.Base.Int.{ltb_ℤ}
use karpenter_provider_huawe.Base.Sort.{
  sort_slice, sort_slice-perm, sort_slice-IsSortedBy, Refines, IsSortedBy,
}
use karpenter_provider_huawe.Apis
use karpenter_provider_huawe.Apis.{CceNodeClass}
use karpenter_provider_huawe.Subnet.{VpcSubnet}
use karpenter_provider_huawe.Controllers.NodeClass.{
  has_finalizer, before_subnet, status_subnet, Answers, reconcile_subnets, same_bool, same_subnets,
  same_status, reconcile_status, reconcile,
}
use karpenter_provider_huawe.Controllers.Finalizer.{reconcile-live}

-- `a` has more available addresses than `b`.
abbrev pub more_addresses : VpcSubnet → VpcSubnet → Bool
more_addresses a b = ltb_ℤ b.available_ip_address_count a.available_ip_address_count

before_subnet-Refines : Refines before_subnet more_addresses
before_subnet-Refines = record {
  up = λ x y h. ground (arith, h);
  down = λ x y h. ground (arith, h);
  trans = λ x y z h k. ground (arith, h, k);
}

same_subnets-eq : (ms ns : List Apis.Subnet) → same_subnets ms ns ≡ true → ms ≡ ns
unfolding same_subnets
same_subnets-eq [] [] h = refl
same_subnets-eq [] (n ∷ ns) h = cc
same_subnets-eq (m ∷ ms) [] h = cc
same_subnets-eq (m ∷ ms) (n ∷ ns) h = elim (Bool-cases (m.id == n.id)) [
  | inl same ↦
      let head : m ≡ n = ap (λ i. record { id = i }) ((eq_iff m.id n.id).0 same) in
      ap (λ k. k ∷ ms) head ∙ ap (◌∷◌ n) (same_subnets-eq ms ns (rw same at h))
  | inr other ↦ let impossible : ⊥ = ground (arith, h, other) in absurd impossible
]

same_bool-eq : (a b : Bool) → same_bool a b ≡ true → a ≡ b
same_bool-eq a b h = ground (arith, h)

-- The class that is made of `nc` for the subnets.
abbrev made : Answers → CceNodeClass → CceNodeClass
made a nc = (reconcile_subnets a.subnets nc).1

reconcile_status-made :
    (a : Answers) (nc : CceNodeClass)
    → a.status_patch ≡ none
    → ((reconcile_status a nc nc).1.status_subnets ≡ (made a nc).status_subnets)
      × ((reconcile_status a nc nc).1.subnets_ready ≡ (made a nc).subnets_ready)
unfolding reconcile_status
reconcile_status-made a nc accepted = elim (Bool-cases (same_status nc (made a nc))) [
  | inl same ↦ rw same (
    same_subnets-eq nc.status_subnets (made a nc).status_subnets (ground (arith, same)),
    same_bool-eq nc.subnets_ready (made a nc).subnets_ready (ground (arith, same)),
  )
  | inr changed ↦ rw (changed, accepted) (refl, refl)
]

-- What the status says of the listed subnets: which order they have in it, and whether there are any.
pub record Reported (listed : List VpcSubnet) (nc : CceNodeClass) : Type 0 where
  pub order : List VpcSubnet
  pub same : Perm order listed
  pub shown : nc.status_subnets ≡ map status_subnet order
  pub sorted : IsSortedBy before_subnet more_addresses order
  pub ready : nc.subnets_ready ≡ not (is_empty listed)

reconcile_subnets-Reported :
    (listed : List VpcSubnet) (nc : CceNodeClass)
    → Reported listed (reconcile_subnets (ok listed) nc).1
unfolding reconcile_subnets
reconcile_subnets-Reported [] nc = record {
  order = [];
  same = Perm.refl [];
  shown = refl;
  sorted = tt;
  ready = refl;
}
reconcile_subnets-Reported (n ∷ ns) nc = record {
  order = sort_slice before_subnet (n ∷ ns);
  same = sort_slice-perm before_subnet (n ∷ ns);
  shown = refl;
  sorted = sort_slice-IsSortedBy before_subnet more_addresses before_subnet-Refines (n ∷ ns);
  ready = refl;
}

-- After a round on a class that has its finalizer and is not being deleted, in which the subnets are
-- listed and the patch of the status is accepted, the status shows just the listed subnets, none
-- with more available addresses than an earlier one, and the subnets are ready exactly if there are
-- any.
pub reconcile-Reported :
    (a : Answers) (nc : CceNodeClass) (listed : List VpcSubnet)
    → has_finalizer nc.finalizers ≡ true
    → nc.deleting ≡ false
    → a.subnets ≡ ok listed
    → a.status_patch ≡ none
    → Reported listed (reconcile a nc).1
reconcile-Reported a nc listed f live found accepted =
    let (subnets, ready) = reconcile_status-made a nc accepted in
    let r = reconcile_subnets-Reported listed nc in
    let whole = ap (λ o. o.1) (reconcile-live a nc f live) in
    let from_list = ap (λ l. (reconcile_subnets l nc).1) found in
    record {
      order = r.order;
      same = r.same;
      shown =
          ap (λ c. c.status_subnets) whole
          ∙ subnets
          ∙ ap (λ c. c.status_subnets) from_list
          ∙ r.shown;
      sorted = r.sorted;
      ready =
          ap (λ c. c.subnets_ready) whole ∙ ready ∙ ap (λ c. c.subnets_ready) from_list ∙ r.ready;
    }
