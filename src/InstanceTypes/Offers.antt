-- ===== src/InstanceTypes/Offers.antt =====
-- The offerings that createOfferings of pkg/providers/instancetype/instancetype.go makes.
use karpenter_provider_huawe.Base.{
  ℕ, ◌*◌, ◌≡◌, refl, sym, ◌∙◌, subst, String, List, [], ◌∷◌, map, not, length, length-append, IsIn,
  All, inl, inr, arith,
}
use karpenter_provider_huawe.Base.Sort.{sort_slice}
use karpenter_provider_huawe.Base.Membership.{
  IsIn-append-left, IsIn-append-right, All-append, All-of_map, All-of_IsIn, IsIn-map, length-map,
  IsIn-sort_slice, IsIn-unsorted, length-sort_slice,
}
use Prim.Native.Nat.{suc}
use native.Mathlib.Nat.{mul_comm, mul-suc}
use karpenter_provider_huawe.Ext.Ecs.{EcsApi}
use karpenter_provider_huawe.Ext.GoCache.{GoCache}
use karpenter_provider_huawe.Ext.Scheduling.{
  Scheduling, InstanceType, Offering, capacity_type_label_key, label_topology_zone,
}
use karpenter_provider_huawe.OfferingCache.{is_unavailable}
use karpenter_provider_huawe.InstanceTypes.{
  ChangeMonitor, State, PriceOf, before_text, offering_of, offerings_of, available_zones,
  capacity_types_of, create_offerings, offering_price,
}

module _ (S : Scheduling) (G : GoCache (Unit {0})) (T : GoCache (List (InstanceType S)))
    (D : GoCache ℕ) (E : EcsApi) (M : ChangeMonitor) (price : PriceOf S G T D E M) where
  abbrev pub Make : Type 0
  Make = String → String → Offering S

  offerings_of-All :
      (P : Offering S → Type 0) (make : Make) (zones types : List String)
      → ((z t : String) → IsIn z zones → IsIn t types → P (make z t))
      → All P (offerings_of S G T D E M make zones types)
  unfolding offerings_of
  offerings_of-All P make [] types h = tt
  offerings_of-All P make (zone ∷ zones) types h =
      All-append P _ _
        (All-of_map (make zone) P types
          (All-of_IsIn (λ t. P (make zone t)) types (λ t i. h zone t (inl refl) i)))
        (offerings_of-All P make zones types (λ z t i j. h z t (inr i) j))

  IsIn-offerings_of :
      (make : Make) (zones types : List String) (z t : String)
      → IsIn z zones
      → IsIn t types
      → IsIn (make z t) (offerings_of S G T D E M make zones types)
  unfolding offerings_of
  IsIn-offerings_of make [] types z t i j = absurd i.lower
  IsIn-offerings_of make (zone ∷ zones) types z t (inl e) j = IsIn-append-left _ _ _ (
      subst (λ x. IsIn (make x t) (map (make zone) types)) (sym e) (IsIn-map (make zone) t types j))
  IsIn-offerings_of make (zone ∷ zones) types z t (inr i) j =
      IsIn-append-right _ (map (make zone) types) _ (IsIn-offerings_of make zones types z t i j)

  length-offerings_of :
      (make : Make) (zones types : List String)
      → length (offerings_of S G T D E M make zones types) ≡ length zones * length types
  unfolding offerings_of
  length-offerings_of make [] types = omega arith
  length-offerings_of make (zone ∷ zones) types =
      rw
        (
          length-append (map (make zone) types) (offerings_of S G T D E M make zones types),
          length-map (make zone) types,
          length-offerings_of make zones types,
        )
        (omega (
          arith,
          mul_comm (suc (length zones)) (length types),
          mul-suc (length types) (length zones),
          mul_comm (length zones) (length types),
        ))

  -- The offering is that of a zone and a capacity type of the instance type.
  abbrev pub IsMade : ℕ → InstanceType S → State S G T D E M → Offering S → Type 0
  IsMade now it s o =
      (z : String) × (t : String) × IsIn z (available_zones S G T D E M it s)
      × IsIn t (capacity_types_of S G T D E M it)
      × (o.available ≡ not (is_unavailable G now t it.name z s.offering_availability_cache))
      × (o.price ≡ offering_price S G T D E M price t it.name)
      × (o.requirements
          ≡ S.new_in ((capacity_type_label_key, t ∷ []) ∷ (label_topology_zone, z ∷ []) ∷ []))

  -- Which offerings an instance type has: for each of its zones and capacity types the one with the
  -- price of that capacity type, available exactly if it is not marked; and as many as that.
  pub record Offered (now : ℕ) (it : InstanceType S) (s : State S G T D E M) : Type 0 where
    pub made : All (IsMade now it s) (create_offerings S G T D E M price now it s)
    pub covers :
        (z t : String)
        → IsIn z (available_zones S G T D E M it s)
        → IsIn t (capacity_types_of S G T D E M it)
        → IsIn
            (offering_of S G T D E M price now s.offering_availability_cache it.name z t)
            (create_offerings S G T D E M price now it s)
    pub count :
        length (create_offerings S G T D E M price now it s)
        ≡ length (available_zones S G T D E M it s) * length (capacity_types_of S G T D E M it)

  -- An instance type is offered in each of its zones for each of its capacity types: at the price of
  -- the capacity type, and available exactly if this offering is not marked as unavailable. It has
  -- no other offerings, and as many as it has zones times capacity types.
  pub create_offerings-Offered :
      (now : ℕ) (it : InstanceType S) (s : State S G T D E M) → Offered now it s
  unfolding create_offerings offering_of
  create_offerings-Offered now it s =
      let zones = available_zones S G T D E M it s in
      let types = capacity_types_of S G T D E M it in
      record {
        made = offerings_of-All (IsMade now it s) _ _ _ (λ z t i j. (
          z,
          t,
          IsIn-unsorted before_text z zones i,
          IsIn-unsorted before_text t types j,
          refl,
          refl,
          refl,
        ));
        covers = λ z t i j.
            IsIn-offerings_of _ _ _ z t (IsIn-sort_slice before_text z zones i)
              (IsIn-sort_slice before_text t types j);
        count =
            length-offerings_of
              (offering_of S G T D E M price now s.offering_availability_cache it.name)
              (sort_slice before_text zones) (sort_slice before_text types)
            ∙ rw (length-sort_slice before_text zones, length-sort_slice before_text types) refl;
      }
