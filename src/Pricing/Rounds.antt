-- ===== src/Pricing/Rounds.antt =====
-- One round of fetchOnDemandPricingBatch of pkg/providers/pricing/pricing.go: the products that it
-- removes are marked.
use karpenter_provider_huawe.Base.{
  ◌+◌, ◌<◌, ◌≡◌, refl, sym, subst, String, Bool, true, ◌⊎◌, inl, inr, List, [], ◌∷◌, Option, none,
  some, ◌==◌, if◌then◌else◌, keep_if, reject, length, Bool-cases, IsIn, All, length-keep_if-reject,
  All-map, Result, ok, err, Error, arith,
}
use text.Mathlib.TextPositions.{eq_refl}
use karpenter_provider_huawe.Ext.Billing.{RatingResult, Billing}
use karpenter_provider_huawe.Pricing.{
  ProductInfo, ends, goes_on, request_product_infos, filter_out_product_info, is_unsupported,
  mark_unsupported_products, Session, Round, remove_product, after_error, after_answer, round,
}

abbrev has_spec : String → ProductInfo → Bool
has_spec spec p = p.resource_spec == spec

filter_out_product_info-reject :
    (spec : String) (ps : List ProductInfo)
    → filter_out_product_info spec ps ≡ (reject (has_spec spec) ps, keep_if (has_spec spec) ps)
unfolding filter_out_product_info
filter_out_product_info-reject spec [] = refl
filter_out_product_info-reject spec (p ∷ ps) =
    rw (filter_out_product_info-reject spec ps)
      (elim (Bool-cases (p.resource_spec == spec)) [ inl e ↦ rw e refl | inr e ↦ rw e refl ])

-- `more` has every mark that `marked` has.
abbrev pub KeepsMarks : List String → List String → Type 0
KeepsMarks marked more =
    (n : String) → is_unsupported marked n ≡ true → is_unsupported more n ≡ true

pub mark_unsupported_products-KeepsMarks :
    (ps : List ProductInfo) (u : List String) → KeepsMarks u (mark_unsupported_products ps u)
unfolding mark_unsupported_products
mark_unsupported_products-KeepsMarks [] u n h = h
mark_unsupported_products-KeepsMarks (p ∷ ps) u n h =
    mark_unsupported_products-KeepsMarks ps _ n
      (elim (Bool-cases (is_unsupported u p.instance_type)) [
        | inl e ↦ rw e h
        | inr e ↦ rw e (ground (arith, h))
      ])

abbrev pub IsMarked : List String → ProductInfo → Type 0
IsMarked u p = is_unsupported u p.instance_type ≡ true

mark_one :
    (p : ProductInfo) (u : List String)
    → IsMarked (if is_unsupported u p.instance_type then u else p.instance_type ∷ u) p
mark_one p u = elim (Bool-cases (is_unsupported u p.instance_type)) [
  | inl e ↦ rw e e
  | inr e ↦ rw e (rw (eq_refl p.instance_type) refl)
]

mark_unsupported_products-IsMarked :
    (ps : List ProductInfo) (u : List String) → All (IsMarked (mark_unsupported_products ps u)) ps
unfolding mark_unsupported_products
mark_unsupported_products-IsMarked [] u = tt
mark_unsupported_products-IsMarked (p ∷ ps) u = (
  mark_unsupported_products-KeepsMarks ps _ p.instance_type (mark_one p u),
  mark_unsupported_products-IsMarked ps _,
)

-- A product that the filter keeps is in its result, the others are marked.
IsIn-reject_or_IsMarked :
    (test : ProductInfo → Bool) (u : List String) (ps : List ProductInfo)
    → All (IsMarked u) (keep_if test ps)
    → All (λ p. IsIn p (reject test ps) ⊎ IsMarked u p) ps
IsIn-reject_or_IsMarked test u [] h = tt
IsIn-reject_or_IsMarked test u (p ∷ ps) h = elim (Bool-cases (test p)) [
  | inl e ↦
      let both = rw e at h in
      subst Split {x = reject test ps} (sym (rw e refl))
        (inr both.0, IsIn-reject_or_IsMarked test u ps both.1)
  | inr e ↦
      subst Split {x = p ∷ reject test ps} (sym (rw e refl))
        (inl (inl refl), All-map _ _ further ps (IsIn-reject_or_IsMarked test u ps (rw e at h)))
]
  where
    Split : List ProductInfo → Type 0
    Split qs = All (λ q. IsIn q qs ⊎ IsMarked u q) (p ∷ ps)

    further :
        (q : ProductInfo)
        → IsIn q (reject test ps) ⊎ IsMarked u q
        → IsIn q (p ∷ reject test ps) ⊎ IsMarked u q
    further q (inl i) = inl (inr i)
    further q (inr m) = inr m

module _ (B : Billing) where
  abbrev pub Answer : Type 0
  Answer = Result (Option (List (RatingResult B.Decimal)))

  -- What a round that goes on with `qs` has done: it has fewer products, and those that are gone are
  -- marked.
  pub record Fewer (ps qs : List ProductInfo) (marked more : List String) : Type 0 where
    pub shorter : length qs < length ps
    pub keeps : KeepsMarks marked more
    pub kept : All (λ p. IsIn p qs ⊎ IsMarked more p) ps

  abbrev pub FewerIf : List ProductInfo → Session B → Round B × Session B → Type 0
  FewerIf ps s (ends r, s') = s'.unsupported_products ≡ s.unsupported_products
  FewerIf ps s (goes_on qs, s') = Fewer ps qs s.unsupported_products s'.unsupported_products

  remove_product-FewerIf :
      (e : Error) (ps filtered removed : List ProductInfo) (s : Session B)
      → length removed + length filtered ≡ length ps
      → ((u : List String)
          → All (IsMarked u) removed
          → All (λ p. IsIn p filtered ⊎ IsMarked u p) ps)
      → FewerIf ps s (remove_product B e (filtered, removed) s)
  unfolding remove_product
  remove_product-FewerIf e ps filtered [] s n h = refl
  remove_product-FewerIf e ps filtered (p ∷ removed) s n h = record {
    shorter = omega (arith, n);
    keeps = mark_unsupported_products-KeepsMarks (p ∷ removed) _;
    kept = h _ (mark_unsupported_products-IsMarked (p ∷ removed) _);
  }

  after_error-FewerIf :
      (e : Error) (spec : Option String) (ps : List ProductInfo) (s : Session B)
      → FewerIf ps s (after_error B e spec ps s)
  unfolding after_error
  after_error-FewerIf e none ps s = refl
  after_error-FewerIf e (some spec) ps s = rw (filter_out_product_info-reject spec ps) (
      remove_product-FewerIf e ps _ _ s (length-keep_if-reject (has_spec spec) ps)
        (λ u. IsIn-reject_or_IsMarked (has_spec spec) u ps))

  after_answer-FewerIf :
      (ps : List ProductInfo) (answer : Answer) (s : Session B)
      → FewerIf ps s (after_answer B ps answer s)
  unfolding after_answer
  after_answer-FewerIf ps (ok response) s = refl
  after_answer-FewerIf ps (err e) s = after_error-FewerIf e _ ps s

  pub round-FewerIf :
      (project_id : String) (ps : List ProductInfo) (s : Session B)
      → FewerIf ps s (round B project_id ps s)
  unfolding round
  round-FewerIf project_id ps s =
      answered (B.list_on_demand_resource_ratings project_id 1 (request_product_infos ps) s.world)
    where
      answered :
          (a : Answer × B.World) → FewerIf ps s (after_answer B ps a.0 (record s { world = a.1 }))
      answered (answer, w) = after_answer-FewerIf ps answer (record s { world = w })
