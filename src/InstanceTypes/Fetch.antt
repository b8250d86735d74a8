-- ===== src/InstanceTypes/Fetch.antt =====
-- What pkg/providers/instancetype/instancetype.go asks of the ECS API: fetchInstanceTypes, page by
-- page, and fetchAvailabilityZones.
use karpenter_provider_huawe.Base.{
  ℕ, zero, suc, String, Bool, false, List, [], ◌∷◌, ◌++◌, Option, none, some, ◌==◌, if◌then◌else◌,
  ltb, length, Result, ok, err, Error, plain, wrapped,
}
use karpenter_provider_huawe.Ext.Ecs.{Flavor, EcsApi}
use karpenter_provider_huawe.InstanceTypes.Zones.{add_all_to_set}

abbrev pub list_flavors_page_size : ℕ
list_flavors_page_size = 1000

-- lo.FromPtr of a list
abbrev pub from_ptr {ℓ} : {A : Type ℓ} → Option (List A) → List A
from_ptr none = []
from_ptr (some xs) = xs

-- The id of the last flavor of a page, which is not empty where it is asked for.
abbrev pub last_flavor_id : List Flavor → String
last_flavor_id [] = ""
last_flavor_id (f ∷ []) = f.id
last_flavor_id (f ∷ g ∷ fs) = last_flavor_id (g ∷ fs)

-- What follows a page.
pub data Page : Type 0 where
  last : Page
  next : String → Page
  fails : Error → Page

abbrev pub is_marker : Option String → String → Bool
is_marker none id = false
is_marker (some marker) id = marker == id

unfoldable pub page_end : Option String → List Flavor → Page
page_end marker flavors =
    if ltb (length flavors) list_flavors_page_size
    then last
    else if last_flavor_id flavors == ""
    then fails (plain "list flavors pagination, empty flavor id at page boundary")
    else if is_marker marker (last_flavor_id flavors)
    then fails (plain "list flavors pagination, marker did not advance")
    else next (last_flavor_id flavors)

module _ (E : EcsApi) where
  -- The loop of fetchInstanceTypes; `none` if the fuel runs out.
  unfoldable pub fetch_pages :
      ℕ → Option String → List Flavor → E.World → Option (Result (List Flavor)) × E.World
  unfolding page_end
  fetch_pages zero marker found w = (none, w)
  fetch_pages (suc fuel) marker found w =
      let (answer, w') = E.list_flavors list_flavors_page_size marker w in
      elim answer [
        | err e ↦ (some (err (wrapped "list flavors, %w" e)), w')
        | ok flavors ↦
            let all = found ++ from_ptr flavors in
            elim (page_end marker (from_ptr flavors)) [
              | last ↦ (some (ok all), w')
              | fails e ↦ (some (err e), w')
              | next id ↦ fetch_pages fuel (some id) all w'
            ]
      ]

  unfoldable pub fetch_instance_types : ℕ → E.World → Option (Result (List Flavor)) × E.World
  unfolding fetch_pages
  fetch_instance_types fuel w = fetch_pages fuel none [] w

  abbrev pub listed_zones : Result (Option (List String)) → Result (List String)
  listed_zones (err e) = err (wrapped "listing availability zones, %w" e)
  listed_zones (ok zones) = ok (add_all_to_set (from_ptr zones) [])

  unfoldable pub fetch_availability_zones : E.World → Result (List String) × E.World
  fetch_availability_zones w =
      let (answer, w') = E.list_server_az_info w in (listed_zones answer, w')
