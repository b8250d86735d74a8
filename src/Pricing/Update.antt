-- ===== src/Pricing/Update.antt =====
-- UpdateOnDemandPricing of pkg/providers/pricing/pricing.go as a whole.
use karpenter_provider_huawe.Base.{
  ℕ, zero, suc, ◌≤◌, ◌≡◌, refl, sym, subst, String, false, ◌⊎◌, inl, inr, List, [], ◌∷◌, Option,
  none, some, ◌==◌, take, drop, length, is_empty, length-drop, Bool-cases, All, Result, ok, err,
  Error, IfOk, IfSome, none_ne_some, arith,
}
use karpenter_provider_huawe.Base.Maps.{Map, insert}
use karpenter_provider_huawe.Ext.Billing.{RatingResult, Billing}
use karpenter_provider_huawe.Ext.Ecs.{Flavor}
use karpenter_provider_huawe.Pricing.{
  ProductInfo, build_demand_product_infos, filter_unsupported_instance_types, Prices, is_no_price,
  put_price, rating_prices, on_demand_page, merge_on_demand_pricing, price_from_rating_result,
  Session, State, max_products_per_batch, then_merge, fetch_batches, fetch_on_demand_pricing,
  store_prices, update_on_demand_pricing,
}
use karpenter_provider_huawe.Pricing.Rounds.{Answer, KeepsMarks}
use karpenter_provider_huawe.Pricing.Batch.{Ended, fetch_on_demand_pricing_batch-Ended}

insert-All :
    {V : Type 0} (P : V → Type 0) (k : String) (v : V) (m : Map V)
    → P v
    → All (λ e. P e.1) m
    → All (λ e. P e.1) (insert k v m)
unfolding insert
insert-All P k v [] p h = (p, tt)
insert-All P k v ((key, old) ∷ rest) p h = elim (Bool-cases (key == k)) [
  | inl e ↦ rw e (p, h.1)
  | inr e ↦ rw e (h.0, insert-All P k v rest p h.1)
]

module _ (B : Billing) where
  -- A number that is neither below 0 nor 0, and neither infinite nor no number.
  pub record IsPrice (x : B.float.Float) : Type 0 where
    pub not_below : B.float.lt x B.float.zero ≡ false
    pub not_zero : B.float.eq x B.float.zero ≡ false
    pub number : B.is_nan x ≡ false
    pub finite : B.is_inf x ≡ false

  is_no_price-IsPrice : (x : B.float.Float) → is_no_price B x ≡ false → IsPrice x
  unfolding is_no_price
  is_no_price-IsPrice x h = record {
    not_below = ground (arith, h);
    not_zero = ground (arith, h);
    number = ground (arith, h);
    finite = ground (arith, h);
  }

  -- Every price is one.
  abbrev pub IsPriced : Prices B → Type 0
  IsPriced = All (λ e. IsPrice e.1)

  put_price-IsPriced :
      (id : Option String) (x : B.float.Float) (prices : Prices B)
      → IsPriced prices
      → IsPriced (put_price B id x prices)
  unfolding put_price
  put_price-IsPriced none x prices h = h
  put_price-IsPriced (some id) x prices h = elim (Bool-cases (is_no_price B x)) [
    | inl e ↦ rw e h
    | inr e ↦ rw e (insert-All IsPrice id x prices (is_no_price-IsPrice x e) h)
  ]

  rating_prices-IsPriced :
      (rs : List (RatingResult B.Decimal)) (prices : Prices B)
      → IsPriced prices
      → IsPriced (rating_prices B rs prices)
  unfolding rating_prices
  rating_prices-IsPriced [] prices h = h
  rating_prices-IsPriced (r ∷ rs) prices h =
      rating_prices-IsPriced rs _ (put_price-IsPriced r.id (price_from_rating_result B r) prices h)

  on_demand_page-IsPriced :
      (response : Option (List (RatingResult B.Decimal))) → IsPriced (on_demand_page B response)
  unfolding on_demand_page
  on_demand_page-IsPriced none = tt
  on_demand_page-IsPriced (some rs) = rating_prices-IsPriced rs [] tt

  merge_on_demand_pricing-IsPriced :
      (prices page : Prices B)
      → IsPriced prices
      → IsPriced page
      → IsPriced (merge_on_demand_pricing B prices page)
  unfolding merge_on_demand_pricing
  merge_on_demand_pricing-IsPriced prices [] h k = h
  merge_on_demand_pricing-IsPriced prices ((name, x) ∷ rest) h k =
      merge_on_demand_pricing-IsPriced (insert name x prices) rest
        (insert-All IsPrice name x prices k.0 h) k.1

  -- What the loop over the batches ends with.
  record Fetched (marked : List String) (o : Option (Result (Prices B)) × Session B) : Type 0 where
    answer : Result (Prices B)
    finished : o.0 ≡ some answer
    priced : IfOk IsPriced answer
    keeps : KeepsMarks marked o.1.unsupported_products

  then_merge-Fetched :
      (project_id : String) (ps : List ProductInfo) (marked : List String)
      (a : Option (Answer B) × Session B) (prices : Prices B)
      (next : Prices B → Session B → Option (Result (Prices B)) × Session B)
      → Ended B project_id ps marked a
      → IsPriced prices
      → ((prices' : Prices B) (s' : Session B)
          → IsPriced prices'
          → Fetched s'.unsupported_products (next prices' s'))
      → Fetched marked (then_merge B a prices next)
  unfolding then_merge
  then_merge-Fetched project_id ps marked (none, s) prices next e h rest =
      absurd (none_ne_some e.finished)
  then_merge-Fetched project_id ps marked (some (err x), s) prices next e h rest = record {
    answer = err x;
    finished = refl;
    priced = tt;
    keeps = e.keeps;
  }
  then_merge-Fetched project_id ps marked (some (ok response), s) prices next e h rest =
      let r =
        rest _ s (merge_on_demand_pricing-IsPriced prices _ h (on_demand_page-IsPriced response)) in
      record {
        answer = r.answer;
        finished = r.finished;
        priced = r.priced;
        keeps = λ n m. r.keeps n (e.keeps n m);
      }

  fetch_batches-Fetched :
      (project_id : String) (fuel : ℕ) (ps : List ProductInfo) (prices : Prices B) (s : Session B)
      → length ps ≤ fuel
      → IsPriced prices
      → Fetched s.unsupported_products (fetch_batches B project_id fuel ps prices s)
  unfolding fetch_batches
  fetch_batches-Fetched project_id fuel [] prices s n h = record {
    answer = ok prices;
    finished = refl;
    priced = h;
    keeps = λ name m. m;
  }
  fetch_batches-Fetched project_id zero (p ∷ ps) prices s n h =
      let impossible : ⊥ = omega (arith, n) in absurd impossible
  fetch_batches-Fetched project_id (suc fuel) (p ∷ ps) prices s n h =
      let batch = take max_products_per_batch (p ∷ ps) in
      then_merge-Fetched project_id batch s.unsupported_products _ prices _
        (fetch_on_demand_pricing_batch-Ended B project_id (length batch) batch s (omega arith)) h
        (λ prices' s'.
          fetch_batches-Fetched project_id fuel (drop max_products_per_batch (p ∷ ps)) prices' s'
            (omega (arith, n, length-drop max_products_per_batch (p ∷ ps))))

  -- What an update leaves: it ends; after an error the prices are what they were, after a success
  -- each is a price; marks stay.
  pub record Updated (p : State B) (o : Option (Result (Unit {0})) × State B) : Type 0 where
    pub effect :
        ((e : Error) × (o.0 ≡ some (err e)) × (o.1.on_demand_prices ≡ p.on_demand_prices))
        ⊎ ((o.0 ≡ some (ok tt)) × IsPriced o.1.on_demand_prices)
    pub keeps : KeepsMarks p.session.unsupported_products o.1.session.unsupported_products

  store_prices-Updated :
      (p : State B) (a : Option (Result (Prices B)) × Session B)
      → Fetched p.session.unsupported_products a
      → Updated p (store_prices B p a)
  store_prices-Updated p (none, s) f = absurd (none_ne_some f.finished)
  store_prices-Updated p (some (err e), s) f = record {
    effect = inl (e, refl, refl);
    keeps = f.keeps;
  }
  store_prices-Updated p (some (ok prices), s) f = record {
    effect = inr (refl, subst (IfSome (IfOk IsPriced)) (sym f.finished) f.priced);
    keeps = f.keeps;
  }

  -- An update of the prices ends, however the billing service answers: with an error, after which
  -- the prices are those from before it, or with success, after which every price is a number that is
  -- neither below 0 nor 0 nor infinite. What was marked as unsupported stays marked.
  pub update_on_demand_pricing-Updated :
      (region project_id : String) (infos : Map Flavor) (p : State B)
      → Updated p (update_on_demand_pricing B region project_id infos p)
  unfolding update_on_demand_pricing fetch_on_demand_pricing
  update_on_demand_pricing-Updated region project_id infos p =
      elim (Bool-cases (project_id == "")) [
        | inl e ↦ rw e (unchanged _)
        | inr e ↦ rw e (elim (Bool-cases (is_empty infos)) [
          | inl none_found ↦ rw none_found (unchanged _)
          | inr found ↦ rw found (
              store_prices-Updated p _ (
                let products =
                  build_demand_product_infos region
                    (filter_unsupported_instance_types p.session.unsupported_products infos) in
                fetch_batches-Fetched project_id (length products) products [] p.session
                  (omega arith) tt))
        ])
      ]
    where
      unchanged : (e : Error) → Updated p (some (err e), p)
      unchanged e = record { effect = inl (e, refl, refl); keeps = λ n m. m }
