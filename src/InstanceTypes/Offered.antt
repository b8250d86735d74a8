-- ===== src/InstanceTypes/Offered.antt =====
-- In which zones resolveOfferingZones of pkg/providers/instancetype/instancetype.go offers a flavor.
use karpenter_provider_huawe.Base.{
  ap, ◌≡◌, refl, sym, ◌∙◌, String, Bool, true, false, List, [], ◌∷◌, Option, none, some, ◌==◌, ◌||◌,
  ◌&&◌, subst, if◌then◌else◌, eq_iff, eq_refl, arith, Bool-cases, inl, inr,
}
use karpenter_provider_huawe.Base.Maps.{Map, lookup, insert, lookup-insert}
use karpenter_provider_huawe.Base.Strings.{trim_space, split_on}
use karpenter_provider_huawe.Ext.Ecs.{FlavorExtraSpec}
use karpenter_provider_huawe.InstanceTypes.Zones.{
  has, add_to_set, delete_from_set, cond_operation_status_available, normalized, zone_and_status,
  put_override, put_part, put_parts, parse_cond_operation_az, default_status, az_overrides,
  given_overrides, override_zones, resolve_offering_zones,
}

-- No key has two entries.
abbrev pub DistinctKeys {ℓ} : {V : Type ℓ} → Map V → Type ℓ
DistinctKeys [] = Unit
DistinctKeys ((k, v) ∷ m) = (lookup k m ≡ none) × DistinctKeys m

insert-DistinctKeys :
    {V : Type 0} (k : String) (v : V) (m : Map V) → DistinctKeys m → DistinctKeys (insert k v m)
unfolding insert lookup
insert-DistinctKeys k v [] h = (refl, tt)
insert-DistinctKeys k v ((j, w) ∷ m) h = elim (Bool-cases (j == k)) [
  | inl same ↦ rw same (subst (λ i. lookup i m ≡ none) ((eq_iff j k).0 same) h.0, h.1)
  | inr other ↦ rw other (
    rw (lookup-insert k j v m) (ground (arith, h.0, other, eq_iff k j, eq_iff j k)),
    insert-DistinctKeys k v m h.1,
  )
]

has_added : (z : String) (zs : List String) → has z (add_to_set z zs) ≡ true
has_added z zs = elim (Bool-cases (has z zs)) [
  | inl there ↦ rw there there
  | inr absent ↦ rw (absent, eq_refl z) refl
]

has-add_to_set :
    (z y : String) (zs : List String) → has z (add_to_set y zs) ≡ ((y == z) || has z zs)
has-add_to_set z y zs = elim (Bool-cases (y == z)) [
  | inl same ↦
      subst (λ x. has x (add_to_set y zs) ≡ true) ((eq_iff y z).0 same) (has_added y zs)
      ∙ sym (rw same refl)
  | inr other ↦ elim (Bool-cases (has y zs)) [
    | inl there ↦ rw (there, other) refl
    | inr absent ↦ rw (absent, other) refl
  ]
]

has-delete_from_set :
    (z y : String) (zs : List String)
    → has z (delete_from_set y zs) ≡ (if y == z then false else has z zs)
has-delete_from_set z y [] = ground arith
has-delete_from_set z y (x ∷ zs) =
    ground (arith, eq_iff x y, eq_iff x z, eq_iff y z, has-delete_from_set z y zs)

has-put :
    (z zone status : String) (zones : List String)
    → has z (
        if cond_operation_status_available status
        then add_to_set zone zones
        else delete_from_set zone zones)
      ≡ (if zone == z then cond_operation_status_available status else has z zones)
has-put z zone status zones = elim (Bool-cases (cond_operation_status_available status)) [
  | inl up ↦ rw up (has-add_to_set z zone zones ∙ ground arith)
  | inr down ↦ rw down (has-delete_from_set z zone zones)
]

-- What the status of a zone, if it has one, makes of its being offered.
abbrev pub decided : Option String → Bool → Bool
decided none offered = offered
decided (some status) offered = cond_operation_status_available status

has-override_zones :
    (z : String) (m : Map String) (zones : List String)
    → DistinctKeys m
    → has z (override_zones m zones) ≡ decided (lookup z m) (has z zones)
unfolding override_zones lookup
has-override_zones z [] zones h = refl
has-override_zones z ((zone, status) ∷ m) zones h =
    has-override_zones z m _ h.1
    ∙ rw (has-put z zone status zones) (elim (Bool-cases (zone == z)) [
      | inl same ↦ rw (same, subst (λ x. lookup x m ≡ none) ((eq_iff zone z).0 same) h.0) refl
      | inr other ↦ rw other refl
    ])

put_part-DistinctKeys :
    (part : String) (m : Map String) → DistinctKeys m → DistinctKeys (put_part part m)
unfolding put_part put_override
put_part-DistinctKeys part m h = elim (Bool-cases (trim_space part == "")) [
  | inl empty ↦ rw empty h
  | inr some_text ↦ rw some_text (put (zone_and_status (trim_space part)))
]
  where
    put : (p : String × String) → DistinctKeys (put_override p m)
    put (zone, status) = elim (Bool-cases (zone == "")) [
      | inl unnamed ↦ rw unnamed h
      | inr named ↦ rw named (insert-DistinctKeys zone status m h)
    ]

put_parts-DistinctKeys :
    (parts : List String) (m : Map String) → DistinctKeys m → DistinctKeys (put_parts parts m)
unfolding put_parts
put_parts-DistinctKeys [] m h = h
put_parts-DistinctKeys (part ∷ parts) m h =
    put_parts-DistinctKeys parts (put_part part m) (put_part-DistinctKeys part m h)

parse_cond_operation_az-DistinctKeys : (text : String) → DistinctKeys (parse_cond_operation_az text)
unfolding parse_cond_operation_az
parse_cond_operation_az-DistinctKeys text =
    put_parts-DistinctKeys (split_on b',' (normalized text)) [] tt

az_overrides-DistinctKeys : (specs : Option FlavorExtraSpec) → DistinctKeys (az_overrides specs)
unfolding az_overrides given_overrides
az_overrides-DistinctKeys none = tt
az_overrides-DistinctKeys (some specs) = given specs.cond_operation_az
  where
    given : (text : Option String) → DistinctKeys (given_overrides text)
    given none = tt
    given (some text) = elim (Bool-cases (text == "")) [
      | inl empty ↦ rw empty tt
      | inr set ↦ rw set (parse_cond_operation_az-DistinctKeys text)
    ]

-- A zone is among those that a flavor is offered in exactly if its own status says so, where the
-- extra specs give it one, and otherwise exactly if the status of the flavor says so and the zone is
-- one of the known zones.
pub resolve_offering_zones_iff :
    (zone : String) (universe : List String) (specs : Option FlavorExtraSpec)
    → has zone (resolve_offering_zones universe specs)
      ≡ decided
          (lookup zone (az_overrides specs))
          (cond_operation_status_available (default_status specs) && has zone universe)
unfolding resolve_offering_zones
resolve_offering_zones_iff zone universe specs =
    has-override_zones zone (az_overrides specs) _ (az_overrides-DistinctKeys specs)
    ∙ ap (decided (lookup zone (az_overrides specs))) known
  where
    known :
        has zone (if cond_operation_status_available (default_status specs) then universe else [])
        ≡ (cond_operation_status_available (default_status specs) && has zone universe)
    known = elim (Bool-cases (cond_operation_status_available (default_status specs))) [
      | inl up ↦ rw up refl
      | inr down ↦ rw down refl
    ]
