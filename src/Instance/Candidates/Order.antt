-- ===== src/Instance/Candidates/Order.antt =====
-- The candidates that buildCreateCandidates of pkg/providers/instance/instance.go makes.
use karpenter_provider_huawe.Base.{
  ◌≡◌, String, Bool, true, false, List, [], Option, none, some, ◌==◌, Bool-cases, inl, inr, IfSome,
  subst,
}
use karpenter_provider_huawe.Base.Sort.{Refines, IsSortedBy, sort_slice-IsSortedBy}
use karpenter_provider_huawe.Ext.Scheduling.{Scheduling, Float64, InstanceType}
use karpenter_provider_huawe.Instance.Candidates.{
  Candidate, collect, compatible_offerings, candidate_less, sorted, build_create_candidates,
}

-- What is asked of the order of prices: it is that of numbers, with no NaN among them.
pub record IsPriceOrder (F : Float64) : Type 0 where
  pub asym : (x y : F.Float) → F.lt x y ≡ true → F.lt y x ≡ false
  pub trans : (x y z : F.Float) → F.lt y x ≡ false → F.lt z y ≡ false → F.lt z x ≡ false
  pub equal : (x y : F.Float) → F.eq x y ≡ true → F.lt x y ≡ false × (F.lt y x ≡ false)

module _ (S : Scheduling) where
  abbrev pub cheaper : Candidate S → Candidate S → Bool
  cheaper a b = S.float.lt a.price b.price

  candidate_less-Refines : IsPriceOrder S.float → Refines (candidate_less S) cheaper
  unfolding candidate_less
  candidate_less-Refines o = record {
    up = λ x y h. elim (Bool-cases (S.float.eq y.price x.price)) [
      | inl e ↦ (o.equal y.price x.price e).1
      | inr e ↦ o.asym y.price x.price (rw e at h)
    ];
    down = λ x y h. elim (Bool-cases (S.float.eq y.price x.price)) [
      | inl e ↦ (o.equal y.price x.price e).0
      | inr e ↦ rw e at h
    ];
    trans = λ x y z. o.trans x.price y.price z.price;
  }

  sorted-IsSortedBy :
      (o : Option (List (Candidate S)))
      → IsPriceOrder S.float
      → IfSome (IsSortedBy (candidate_less S) cheaper) (sorted S o)
  unfolding sorted
  sorted-IsSortedBy none o = tt
  sorted-IsSortedBy (some xs) o =
      sort_slice-IsSortedBy (candidate_less S) cheaper (candidate_less-Refines o) xs

  -- No later candidate is cheaper than an earlier one, whatever offerings there are, if prices
  -- are ordered as numbers are and no requirement lists no value.
  pub build_create_candidates-IsSortedBy :
      (its : List (InstanceType S)) (reqs : S.Requirements) (subnet_id : String)
      (cs : List (Candidate S))
      → IsPriceOrder S.float
      → build_create_candidates S its reqs subnet_id ≡ some cs
      → IsSortedBy (candidate_less S) cheaper cs
  unfolding build_create_candidates
  build_create_candidates-IsSortedBy its reqs subnet_id cs o h =
      subst (IfSome (IsSortedBy (candidate_less S) cheaper)) h
        (elim (Bool-cases (subnet_id == "")) [
          | inl e ↦ rw e tt
          | inr e ↦
              rw e (sorted-IsSortedBy (collect S subnet_id (compatible_offerings S reqs its) []) o)
        ])
