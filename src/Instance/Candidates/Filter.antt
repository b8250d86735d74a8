-- ===== src/Instance/Candidates/Filter.antt =====
-- filterUnavailableCandidates of pkg/providers/instance/instance.go, over the marks of
-- pkg/utils/offering_availability_cache.go.
use karpenter_provider_huawe.Base.{
  ℕ, ◌+◌, ◌≡◌, refl, ◌∙◌, List, [], ◌∷◌, some, length, reject, arith, All, Bool-cases, inl, inr,
}
use karpenter_provider_huawe.Ext.GoCache.{GoCache}
use karpenter_provider_huawe.Ext.Scheduling.{Scheduling}
use karpenter_provider_huawe.OfferingCache.{new_offering_availability_cache}
use karpenter_provider_huawe.OfferingCache.Marks.{NoSlash}
use karpenter_provider_huawe.OfferingCache.Board.{
  Mark, IsNamed, Board, all_open, close_all, is_closed, mark_all, mark_all-Board,
}
use karpenter_provider_huawe.Instance.Candidates.{Candidate, filter_unavailable_candidates}

-- A candidate whose capacity type and instance type hold no slash.
abbrev pub IsNamedCandidate : (S : Scheduling) → Candidate S → Type 0
IsNamedCandidate S c = NoSlash c.capacity_type × NoSlash c.instance_type.name

-- The candidates that the board does not close.
abbrev pub open_candidates : (S : Scheduling) → ℕ → Board → List (Candidate S) → List (Candidate S)
open_candidates S now board =
    reject (λ c. is_closed now (board c.capacity_type c.instance_type.name c.zone))

-- After any calls of MarkUnavailable on a new cache, the filter keeps, in their order, just the
-- candidates that a board leaves open on which each call closes the offering of its capacity type,
-- instance type and zone, and no other, until the time to live has passed; and it counts the others.
-- The names of capacity types and instance types hold no slash.
pub filter_unavailable_candidates-Board :
    (S : Scheduling) (G : GoCache (Unit {0})) (ttl now : ℕ) (ms : List Mark)
    (cs : List (Candidate S))
    → All IsNamed ms
    → All (IsNamedCandidate S) cs
    → let marked = mark_all G ms (some (new_offering_availability_cache G ttl)) in
      let r = filter_unavailable_candidates S G now marked cs in
      (r.0 ≡ open_candidates S now (close_all ttl ms all_open) cs) × (length r.0 + r.1 ≡ length cs)
unfolding filter_unavailable_candidates
filter_unavailable_candidates-Board S G ttl now ms [] named h = (refl, omega arith)
filter_unavailable_candidates-Board S G ttl now ms (c ∷ cs) named h =
    let says =
      mark_all-Board G ttl ms named now c.capacity_type c.instance_type.name c.zone h.0.0 h.0.1 in
    let rest = filter_unavailable_candidates-Board S G ttl now ms cs named h.1 in
    elim (Bool-cases
      (is_closed now (close_all ttl ms all_open c.capacity_type c.instance_type.name c.zone))) [
        | inl e ↦ let blocked = says ∙ e in rw (blocked, e) (rest.0, omega (arith, rest.1))
        | inr e ↦ let free = says ∙ e in rw (free, e) (rw rest.0 refl, omega (arith, rest.1))
      ]
