-- ===== src/Pricing/Asked.antt =====
-- What pkg/providers/pricing/pricing.go asks the billing service for: a product that is marked as
-- unsupported is in no request of a later update.
use karpenter_provider_huawe.Base.{
  ℕ, zero, suc, ◌≡◌, refl, sym, subst, String, true, false, List, [], ◌∷◌, map, Option, none, some,
  ◌==◌, take, drop, length, is_empty, All, All-reject, Bool-cases, eq_iff, Result, ok, err, Error,
  arith, inl, inr,
}
use karpenter_provider_huawe.Base.Maps.{Map}
use karpenter_provider_huawe.Base.Sort.{sort_slice-All}
use karpenter_provider_huawe.Ext.Billing.{DemandProductInfo, Billing}
use karpenter_provider_huawe.Ext.Ecs.{Flavor}
use karpenter_provider_huawe.Pricing.{
  ProductInfo, is_unsupported, before_name, product_of, build_demand_product_infos,
  filter_unsupported_instance_types, filter_out_product_info, request_product_infos, Prices,
  Session, State, Round, ends, goes_on, remove_product, after_error, after_answer, round,
  fetch_on_demand_pricing_batch, max_products_per_batch, then_merge, fetch_batches,
  fetch_on_demand_pricing, store_prices, update_on_demand_pricing,
}
use karpenter_provider_huawe.Pricing.Rounds.{Answer}
use karpenter_provider_huawe.Pricing.Update.{update_on_demand_pricing-Updated}

All-take : {A : Type 0} (P : A → Type 0) (n : ℕ) (xs : List A) → All P xs → All P (take n xs)
All-take P zero xs h = tt
All-take P (suc n) [] h = tt
All-take P (suc n) (x ∷ xs) h = (h.0, All-take P n xs h.1)

All-drop : {A : Type 0} (P : A → Type 0) (n : ℕ) (xs : List A) → All P xs → All P (drop n xs)
All-drop P zero xs h = h
All-drop P (suc n) [] h = tt
All-drop P (suc n) (x ∷ xs) h = All-drop P n xs h.1

module _ (name : String) where
  -- A request, or a product that goes into one, for another instance type.
  abbrev pub IsOther : DemandProductInfo → Type 0
  IsOther info = (info.id == name) ≡ false

  abbrev Spares : ProductInfo → Type 0
  Spares p = IsOther p.product_info

  request-IsOther : (ps : List ProductInfo) → All Spares ps → All IsOther (request_product_infos ps)
  request-IsOther [] h = tt
  request-IsOther (p ∷ ps) h = (h.0, request-IsOther ps h.1)

  filter_out-Spares :
      (spec : String) (ps : List ProductInfo)
      → All Spares ps
      → All Spares (filter_out_product_info spec ps).0
  unfolding filter_out_product_info
  filter_out-Spares spec [] h = tt
  filter_out-Spares spec (p ∷ ps) h = elim (Bool-cases (p.resource_spec == spec)) [
    | inl e ↦ rw e (filter_out-Spares spec ps h.1)
    | inr e ↦ rw e (h.0, filter_out-Spares spec ps h.1)
  ]

  product_of-Spares :
      (region : String) (u : List String) (es : Map Flavor)
      → is_unsupported u name ≡ true
      → All (λ e. is_unsupported u e.0 ≡ false) es
      → All Spares (map (product_of region) es)
  unfolding product_of
  product_of-Spares region u [] marked h = tt
  product_of-Spares region u ((n, f) ∷ es) marked h =
      (ground (arith, marked, h.0, eq_iff n name), product_of-Spares region u es marked h.1)

  build-Spares :
      (region : String) (u : List String) (infos : Map Flavor)
      → is_unsupported u name ≡ true
      → All Spares (build_demand_product_infos region (filter_unsupported_instance_types u infos))
  unfolding build_demand_product_infos filter_unsupported_instance_types
  build-Spares region u infos marked =
      product_of-Spares region u _ marked
        (sort_slice-All before_name _ _ (All-reject (λ e. is_unsupported u e.0) infos))

-- What an operator asks for in turn: a region, a project and the flavors by their names.
abbrev pub Update : Type 0
Update = String × String × Map Flavor

module _ (B : Billing) where
  -- One update after the other.
  abbrev pub updates : List Update → State B → State B
  updates [] p = p
  updates ((region, project_id, infos) ∷ us) p =
      updates us (update_on_demand_pricing B region project_id infos p).1

  -- `P` is what stays true of the billing service as long as it is not asked for the instance type.
  module _ (name : String) (P : B.World → Type 0)
      (others : (project_id : String) (precision : ℕ) (infos : List DemandProductInfo) (w : B.World)
        → All (IsOther name) infos
        → P w
        → P (B.list_on_demand_resource_ratings project_id precision infos w).1) where
    abbrev SparedIf : Round B → Type 0
    SparedIf (ends r) = Unit
    SparedIf (goes_on qs) = All (Spares name) qs

    abbrev Kept : Round B × Session B → Type 0
    Kept (r, s) = P s.world × SparedIf r

    remove_product-Kept :
        (e : Error) (filtered removed : List ProductInfo) (s : Session B)
        → P s.world
        → All (Spares name) filtered
        → Kept (remove_product B e (filtered, removed) s)
    unfolding remove_product
    remove_product-Kept e filtered [] s h k = (h, tt)
    remove_product-Kept e filtered (p ∷ ps) s h k = (h, k)

    after_error-Kept :
        (e : Error) (spec : Option String) (ps : List ProductInfo) (s : Session B)
        → P s.world
        → All (Spares name) ps
        → Kept (after_error B e spec ps s)
    unfolding after_error
    after_error-Kept e none ps s h k = (h, tt)
    after_error-Kept e (some spec) ps s h k =
        remove_product-Kept e (filter_out_product_info spec ps).0
          (filter_out_product_info spec ps).1 s h (filter_out-Spares name spec ps k)

    after_answer-Kept :
        (ps : List ProductInfo) (answer : Answer B) (s : Session B)
        → P s.world
        → All (Spares name) ps
        → Kept (after_answer B ps answer s)
    unfolding after_answer
    after_answer-Kept ps (ok response) s h k = (h, tt)
    after_answer-Kept ps (err e) s h k = after_error-Kept e _ ps s h k

    round-Kept :
        (project_id : String) (ps : List ProductInfo) (s : Session B)
        → P s.world
        → All (Spares name) ps
        → Kept (round B project_id ps s)
    unfolding round
    round-Kept project_id ps s h k =
        let asked =
          others project_id 1 (request_product_infos ps) s.world (request-IsOther name ps k) h in
        after_answer-Kept ps _ _ asked k

    abbrev KeptIf : {A : Type 0} → A × Session B → Type 0
    KeptIf (a, s) = P s.world

    then_round : String → ℕ → Round B × Session B → Option (Answer B) × Session B
    then_round project_id fuel (ends answer, s') = (some answer, s')
    then_round project_id fuel (goes_on qs, s') =
        fetch_on_demand_pricing_batch B project_id fuel qs s'

    then_round-Kept :
        (project_id : String) (fuel : ℕ) (a : Round B × Session B)
        → Kept a
        → ((qs : List ProductInfo) (s : Session B)
            → P s.world
            → All (Spares name) qs
            → KeptIf (fetch_on_demand_pricing_batch B project_id fuel qs s))
        → KeptIf (then_round project_id fuel a)
    unfolding then_round
    then_round-Kept project_id fuel (ends answer, s) h rest = h.0
    then_round-Kept project_id fuel (goes_on qs, s) h rest = rest qs s h.0 h.1

    step-then_round :
        (project_id : String) (fuel : ℕ) (a : Round B × Session B)
        → ◌≡◌ {A = Option (Answer B) × Session B}
            (elim a.0 [
              | ends answer ↦ (some answer, a.1)
              | goes_on remaining ↦ fetch_on_demand_pricing_batch B project_id fuel remaining a.1
            ])
            (then_round project_id fuel a)
    unfolding then_round
    step-then_round project_id fuel (ends answer, s) = refl
    step-then_round project_id fuel (goes_on qs, s) = refl

    batch-Kept :
        (project_id : String) (fuel : ℕ) (ps : List ProductInfo) (s : Session B)
        → P s.world
        → All (Spares name) ps
        → KeptIf (fetch_on_demand_pricing_batch B project_id fuel ps s)
    unfolding fetch_on_demand_pricing_batch
    batch-Kept project_id fuel [] s h k = h
    batch-Kept project_id zero (p ∷ ps) s h k = h
    batch-Kept project_id (suc fuel) (p ∷ ps) s h k =
        subst KeptIf (sym (step-then_round project_id fuel (round B project_id (p ∷ ps) s))) (
          then_round-Kept project_id fuel (round B project_id (p ∷ ps) s)
            (round-Kept project_id (p ∷ ps) s h k) (batch-Kept project_id fuel))

    then_merge-Kept :
        (a : Option (Answer B) × Session B) (prices : Prices B)
        (next : Prices B → Session B → Option (Result (Prices B)) × Session B)
        → KeptIf a
        → ((prices' : Prices B) (s : Session B) → P s.world → KeptIf (next prices' s))
        → KeptIf (then_merge B a prices next)
    unfolding then_merge
    then_merge-Kept (none, s) prices next h rest = h
    then_merge-Kept (some (err e), s) prices next h rest = h
    then_merge-Kept (some (ok response), s) prices next h rest = rest _ s h

    batches-Kept :
        (project_id : String) (fuel : ℕ) (ps : List ProductInfo) (prices : Prices B) (s : Session B)
        → P s.world
        → All (Spares name) ps
        → KeptIf (fetch_batches B project_id fuel ps prices s)
    unfolding fetch_batches
    batches-Kept project_id fuel [] prices s h k = h
    batches-Kept project_id zero (p ∷ ps) prices s h k = h
    batches-Kept project_id (suc fuel) (p ∷ ps) prices s h k =
        let batch = take max_products_per_batch (p ∷ ps) in
        then_merge-Kept (fetch_on_demand_pricing_batch B project_id (length batch) batch s) prices _
          (batch-Kept project_id (length batch) batch s h
            (All-take (Spares name) max_products_per_batch (p ∷ ps) k))
          (λ prices' s' h'.
            batches-Kept project_id fuel (drop max_products_per_batch (p ∷ ps)) prices' s' h'
              (All-drop (Spares name) max_products_per_batch (p ∷ ps) k))

    store_prices-Kept :
        (p : State B) (a : Option (Result (Prices B)) × Session B)
        → KeptIf a
        → P (store_prices B p a).1.session.world
    store_prices-Kept p (none, s) h = h
    store_prices-Kept p (some (err e), s) h = h
    store_prices-Kept p (some (ok prices), s) h = h

    update-Kept :
        (region project_id : String) (infos : Map Flavor) (p : State B)
        → is_unsupported p.session.unsupported_products name ≡ true
        → P p.session.world
        → P (update_on_demand_pricing B region project_id infos p).1.session.world
    unfolding update_on_demand_pricing fetch_on_demand_pricing
    update-Kept region project_id infos p marked h = elim (Bool-cases (project_id == "")) [
      | inl e ↦ rw e h
      | inr e ↦ rw e (elim (Bool-cases (is_empty infos)) [
        | inl none_found ↦ rw none_found h
        | inr found ↦ rw found (
            store_prices-Kept p _ (
              batches-Kept project_id _ _ [] p.session h
                (build-Spares name region p.session.unsupported_products infos marked)))
      ])
    ]

    -- Once an instance type is marked as unsupported, it stays marked and no update asks for its
    -- product again, however many updates there are and whatever they are answered: what stays true
    -- of the billing service as long as no request holds the product of the instance type is true
    -- after them.
    pub updates-not_asked :
        (us : List Update) (p : State B)
        → is_unsupported p.session.unsupported_products name ≡ true
        → P p.session.world
        → (is_unsupported (updates us p).session.unsupported_products name ≡ true)
          × P (updates us p).session.world
    updates-not_asked [] p marked h = (marked, h)
    updates-not_asked ((region, project_id, infos) ∷ us) p marked h =
        updates-not_asked us (update_on_demand_pricing B region project_id infos p).1
          ((update_on_demand_pricing-Updated B region project_id infos p).keeps name marked)
          (update-Kept region project_id infos p marked h)
