-- ===== src/Instance/Candidates.antt =====
-- The candidates of pkg/providers/instance/instance.go: what CreateNode may be tried with, and in
-- which order. `none` stands for the panic of Values()[0] on a requirement that lists no value.
pub mod Order
pub mod Filter
use Prim.Native.String.{compare}
use text.Mathlib.Text.{is_lt}
use karpenter_provider_huawe.Base.{
  ℕ, suc, ◌+◌, String, ◌+str◌, Bool, true, false, List, [], ◌∷◌, ◌++◌, map, Option, none, some,
  ◌==◌, not, if◌then◌else◌, eqb, any, keep_if,
}
use karpenter_provider_huawe.Base.Sort.{sort_slice}
use karpenter_provider_huawe.Ext.GoCache.{GoCache}
use karpenter_provider_huawe.Ext.Scheduling.{
  Scheduling, Offering, InstanceType, capacity_type_label_key, label_topology_zone,
  capacity_type_on_demand,
}
use karpenter_provider_huawe.OfferingCache.{OfferingCache, is_unavailable}

module _ (S : Scheduling) where
  -- createCandidate
  pub record Candidate : Type 0 where
    pub instance_type : InstanceType S
    pub capacity_type : String
    pub price : S.float.Float
    pub zone : String
    pub subnet_id : String

  -- Values()[0] of a requirement that is not missing and not empty; `none` in place of the panic, and
  -- `some none` where the requirement is missing or empty.
  abbrev pub head? : List String → Option (Option String)
  head? [] = none
  head? (v ∷ vs) = some (some v)

  unfoldable pub first_value : Option S.Requirement → Option (Option String)
  first_value none = some none
  first_value (some r) = if eqb (S.len r) 0 then some none else head? (S.values r)

  abbrev pub or_on_demand : Option (Option String) → Option String
  or_on_demand none = none
  or_on_demand (some none) = some capacity_type_on_demand
  or_on_demand (some (some v)) = some v

  unfoldable pub offering_capacity_type : Offering S → Option String
  unfolding first_value
  offering_capacity_type o =
      or_on_demand (first_value (S.requirement capacity_type_label_key o.requirements))

  abbrev pub candidate_key : Candidate → String
  candidate_key c = c.capacity_type +str "/" +str c.zone +str "/" +str c.instance_type.name

  abbrev pub with_capacity :
      String → InstanceType S → Offering S → String → Option String → Option (Option Candidate)
  with_capacity subnet_id it o zone none = none
  with_capacity subnet_id it o zone (some capacity_type) = some (
      some (record {
        instance_type = it;
        capacity_type = capacity_type;
        price = o.price;
        zone = zone;
        subnet_id = subnet_id;
      }))

  abbrev pub with_zone :
      String
      → InstanceType S
      → Offering S
      → Option String
      → Option (Option String)
      → Option (Option Candidate)
  with_zone subnet_id it o capacity_type none = none
  with_zone subnet_id it o capacity_type (some none) = some none
  with_zone subnet_id it o capacity_type (some (some zone)) =
      with_capacity subnet_id it o zone capacity_type

  -- The body of the loop: a candidate, or none where the offering has no zone.
  unfoldable pub candidate_of : String → InstanceType S × Offering S → Option (Option Candidate)
  unfolding offering_capacity_type first_value
  candidate_of subnet_id (it, o) =
      with_zone subnet_id it o (offering_capacity_type o)
        (first_value (S.requirement label_topology_zone o.requirements))

  abbrev pub prepend : Candidate → Option (List Candidate) → Option (List Candidate)
  prepend c none = none
  prepend c (some cs) = some (c ∷ cs)

  -- The loop, with the keys seen so far.
  unfoldable pub collect :
      String → List (InstanceType S × Offering S) → List String → Option (List Candidate)
  collect subnet_id [] seen = some []
  collect subnet_id (x ∷ xs) seen = elim (candidate_of subnet_id x) [
    | none ↦ none
    | some o ↦ elim o [
      | none ↦ collect subnet_id xs seen
      | some c ↦ elim (any (λ k. k == candidate_key c) seen) [
        | true ↦ collect subnet_id xs seen
        | false ↦ prepend c (collect subnet_id xs (candidate_key c ∷ seen))
      ]
    ]
  ]

  -- it.Offerings.Compatible(reqs) for each instance type in turn.
  unfoldable pub compatible_offerings :
      S.Requirements → List (InstanceType S) → List (InstanceType S × Offering S)
  compatible_offerings reqs [] = []
  compatible_offerings reqs (it ∷ its) =
      map (λ o. (it, o)) (keep_if (λ o. S.compatible reqs o.requirements) it.offerings)
      ++ compatible_offerings reqs its

  -- candidates[i] < candidates[j]: by price, then zone, then name.
  unfoldable pub candidate_less : Candidate → Candidate → Bool
  candidate_less a b =
      if not (S.float.eq a.price b.price)
      then S.float.lt a.price b.price
      else if not (a.zone == b.zone)
      then is_lt (compare a.zone b.zone)
      else is_lt (compare a.instance_type.name b.instance_type.name)

  abbrev pub sorted : Option (List Candidate) → Option (List Candidate)
  unfolding sort_slice candidate_less
  sorted none = none
  sorted (some cs) = some (sort_slice candidate_less cs)

  -- `subnet_id` is the id of the selected subnet, empty where there is none.
  unfoldable pub build_create_candidates :
      List (InstanceType S) → S.Requirements → String → Option (List Candidate)
  unfolding collect candidate_of compatible_offerings sort_slice candidate_less
  build_create_candidates its reqs subnet_id =
      if subnet_id == ""
      then some []
      else sorted (collect subnet_id (compatible_offerings reqs its) [])

  module _ (G : GoCache (Unit {0})) where
    abbrev pub blocked : ℕ → Option (OfferingCache G) → Candidate → Bool
    blocked now offerings c =
        is_unavailable G now c.capacity_type c.instance_type.name c.zone offerings

    -- The candidates whose offering is not marked, and how many were skipped.
    unfoldable pub filter_unavailable_candidates :
        ℕ → Option (OfferingCache G) → List Candidate → List Candidate × ℕ
    unfolding is_unavailable
    filter_unavailable_candidates now offerings [] = ([], 0)
    filter_unavailable_candidates now offerings (c ∷ cs) =
        let (filtered, skipped) = filter_unavailable_candidates now offerings cs in
        if blocked now offerings c then (filtered, skipped + 1) else (c ∷ filtered, skipped)
