-- ===== src/OfferingCache/Tests.antt =====
-- The theorems on the marks of offerings, at concrete offerings.
use karpenter_provider_huawe.Base.{
  String, List, [], ◌∷◌, ◌+◌, ◌≡◌, refl, some, ◌==◌, if◌then◌else◌, leb,
}
use karpenter_provider_huawe.Ext.GoCache.{GoCache}
use karpenter_provider_huawe.Ext.Samples.{timed_cache}
use karpenter_provider_huawe.OfferingCache.{
  OfferingCache, offering_availability_key, new_offering_availability_cache, mark_unavailable,
  is_unavailable,
}
use karpenter_provider_huawe.OfferingCache.Board.{
  Mark, mark_all, all_open, close_all, is_closed, mark_all-Board,
}
use karpenter_provider_huawe.OfferingCache.Marks.{
  is_unavailable-mark_unavailable, offering_availability_key_inj,
}

abbrev marks : GoCache (Unit {0})
marks = timed_cache (Unit {0}) 100

abbrev unmarked : OfferingCache marks
unmarked = record { cache = marks.empty; ttl = 100 }

marked_offering_run :
    is_unavailable marks 7 "on-demand" "c7.large.2" "z1"
      (mark_unavailable marks 5 "on-demand" "c7.large.2" "z1" (some unmarked))
    ≡ (if offering_availability_key "on-demand" "c7.large.2" "z1"
          == offering_availability_key "on-demand" "c7.large.2" "z1"
        then leb 7 (5 + 100)
        else is_unavailable marks 7 "on-demand" "c7.large.2" "z1" (some unmarked))
marked_offering_run =
    is_unavailable-mark_unavailable marks 5 7 "on-demand" "c7.large.2" "z1" "on-demand" "c7.large.2"
      "z1" unmarked

abbrev capacity : String
capacity = "x"

abbrev flavor : String
flavor = "y"

abbrev zone : String
zone = "z1"

same_key_run : (capacity ≡ capacity) × (flavor ≡ flavor) × (zone ≡ zone)
same_key_run =
    offering_availability_key_inj capacity flavor zone capacity flavor zone ((λ e. cc), tt)
      ((λ e. cc), tt) ((λ e. cc), tt) ((λ e. cc), tt) refl

abbrev sold_out : List Mark
sold_out =
    record { now = 3; capacity_type = "x"; instance_type = "y"; zone = "z1" }
    ∷ record { now = 5; capacity_type = "x"; instance_type = "w"; zone = "z1" }
    ∷ []

mark_all-Board_example :
    is_unavailable marks 104 "x" "w" "z1"
      (mark_all marks sold_out (some (new_offering_availability_cache marks 100)))
    ≡ is_closed 104 (close_all 100 sold_out all_open "x" "w" "z1")
mark_all-Board_example =
    mark_all-Board marks 100 sold_out
      ((((λ e. cc), tt), ((λ e. cc), tt)), ((((λ e. cc), tt), ((λ e. cc), tt)), tt)) 104 "x" "w"
      "z1" ((λ e. cc), tt) ((λ e. cc), tt)
