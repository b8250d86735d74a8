-- ===== src/InstanceTypes/Zones.antt =====
-- How pkg/providers/instancetype/instancetype.go reads from the extra specs of a flavor in which
-- zones it is offered. A set of zones is a list with no element twice.
use Prim.Native.Char.{Char, code}
use karpenter_provider_huawe.Base.{
  String, Bool, true, false, List, [], ◌∷◌, Option, none, some, ◌==◌, ◌||◌, if◌then◌else◌, any,
  reject, eqb, map,
}
use karpenter_provider_huawe.Base.Strings.{
  trim_space, after_first, before_any, before_last, split_on,
}
use karpenter_provider_huawe.Base.Maps.{Map, insert}
use karpenter_provider_huawe.Ext.Ecs.{Flavor, FlavorExtraSpec}

-- sets.Set: Has, Insert, Delete
abbrev pub has : String → List String → Bool
has zone zones = any (λ z. z == zone) zones

abbrev pub add_to_set : String → List String → List String
add_to_set zone zones = if has zone zones then zones else zone ∷ zones

abbrev pub delete_from_set : String → List String → List String
delete_from_set zone zones = reject (λ z. z == zone) zones

unfoldable pub cond_operation_status_available : String → Bool
unfolding trim_space
cond_operation_status_available status =
    let s = trim_space status in
    if s == "" || s == "normal" || s == "promotion" || s == "obt"
    then true
    else if s == "abandon" || s == "sellout" || s == "obt_sellout"
    then false
    else true

-- strings.NewReplacer of the full-width punctuation
unfoldable pub replaced : Char → Char
replaced c =
    if eqb (code c) 0xff0c || eqb (code c) 0xff1b || eqb (code c) b';'
    then ","
    else if eqb (code c) 0xff08
    then "("
    else if eqb (code c) 0xff09
    then ")"
    else c

unfoldable pub normalized : String → String
unfolding replaced
normalized String.[] = String.[]
normalized (String.◌∷◌ c s) = String.◌∷◌ (replaced c) (normalized s)

-- The zone and the status of a part `zone(status)`, or of a part without parentheses.
unfoldable pub zone_and_status : String → String × String
unfolding trim_space after_first before_any before_last
zone_and_status part = elim (after_first "(" part) [
  | none ↦ (part, "")
  | some rest ↦ elim (before_last b')' rest) [
    | none ↦ (part, "")
    | some status ↦ (trim_space (before_any (λ c. eqb c b'(') part), trim_space status)
  ]
]

unfoldable pub put_override : String × String → Map String → Map String
unfolding insert
put_override (zone, status) out = if zone == "" then out else insert zone status out

unfoldable pub put_part : String → Map String → Map String
unfolding trim_space zone_and_status put_override
put_part part out =
    let trimmed = trim_space part in
    if trimmed == "" then out else put_override (zone_and_status trimmed) out

unfoldable pub put_parts : List String → Map String → Map String
unfolding put_part
put_parts [] out = out
put_parts (part ∷ parts) out = put_parts parts (put_part part out)

unfoldable pub parse_cond_operation_az : String → Map String
unfolding put_parts split_on normalized
parse_cond_operation_az text = put_parts (split_on b',' (normalized text)) []

-- The status that holds where no zone has its own, and the zones that have.
abbrev pub given_status : Option String → String
given_status none = "normal"
given_status (some status) = if status == "" then "normal" else status

abbrev pub default_status : Option FlavorExtraSpec → String
default_status none = "normal"
default_status (some specs) = given_status specs.cond_operation_status

unfoldable pub given_overrides : Option String → Map String
unfolding parse_cond_operation_az
given_overrides none = []
given_overrides (some text) = if text == "" then [] else parse_cond_operation_az text

unfoldable pub az_overrides : Option FlavorExtraSpec → Map String
unfolding given_overrides
az_overrides none = []
az_overrides (some specs) = given_overrides specs.cond_operation_az

unfoldable pub override_zones : Map String → List String → List String
unfolding cond_operation_status_available
override_zones [] zones = zones
override_zones ((zone, status) ∷ rest) zones = override_zones rest (
    if cond_operation_status_available status
    then add_to_set zone zones
    else delete_from_set zone zones)

unfoldable pub resolve_offering_zones : List String → Option FlavorExtraSpec → List String
unfolding override_zones az_overrides cond_operation_status_available
resolve_offering_zones universe specs =
    override_zones (az_overrides specs)
      (if cond_operation_status_available (default_status specs) then universe else [])

-- Insert of all elements of a set.
abbrev pub add_all_to_set : List String → List String → List String
add_all_to_set [] zones = zones
add_all_to_set (z ∷ zs) zones = add_all_to_set zs (add_to_set z zones)

abbrev pub parsed_zones : Option String → List String
unfolding parse_cond_operation_az
parsed_zones none = []
parsed_zones (some text) = map (λ e. e.0) (parse_cond_operation_az text)

abbrev pub zones_of_specs : Option FlavorExtraSpec → List String
unfolding parsed_zones
zones_of_specs none = []
zones_of_specs (some specs) = parsed_zones specs.cond_operation_az

-- The zones of the region, and those that a flavor names.
unfoldable pub zone_universe : List String → List Flavor → List String
unfolding zones_of_specs
zone_universe zones [] = zones
zone_universe zones (f ∷ fs) =
    zone_universe (add_all_to_set (zones_of_specs f.os_extra_specs) zones) fs
