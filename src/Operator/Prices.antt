-- ===== src/Operator/Prices.antt =====
-- The prices that the offerings of an operator of pkg/operator/operator.go have: the pricing provider
-- finds them out, its controller keeps them, and the instance type provider asks for them.
use karpenter_provider_huawe.Base.{
  ℕ, ◌≡◌, refl, sym, ◌∙◌, subst, String, true, false, List, [], ◌∷◌, Option, none, some, ◌==◌, inl,
  inr, Result, ok, err, IfOk, IfSome, All, All-map, Bool-cases,
}
use karpenter_provider_huawe.Base.Maps.{Map, lookup}
use karpenter_provider_huawe.Apis.{CceNodeClass}
use karpenter_provider_huawe.Ext.Billing.{Billing}
use karpenter_provider_huawe.Ext.Ecs.{Flavor}
use karpenter_provider_huawe.Ext.Scheduling.{
  InstanceType, Offering, capacity_type_label_key, capacity_type_on_demand, label_topology_zone,
}
use karpenter_provider_huawe.InstanceTypes.{
  offering_price, known_price, with_offerings, inject_offerings,
}
use karpenter_provider_huawe.InstanceTypes.Offers.{create_offerings-Offered}
use karpenter_provider_huawe.InstanceTypes.Serve.{
  list, check_discovered, cached_or_resolved, if_discovered,
}
use karpenter_provider_huawe.Pricing
use karpenter_provider_huawe.Version
use karpenter_provider_huawe.Pricing.{on_demand_price, update_on_demand_pricing}
use karpenter_provider_huawe.Pricing.Update.{IsPrice, IsPriced, update_on_demand_pricing-Updated}
use karpenter_provider_huawe.Controllers.Providers.{reconcile_pricing}
use karpenter_provider_huawe.Operator.Clients.{Services}
use karpenter_provider_huawe.Operator.{
  Operator, Sched, Types, price_of, now, list_types, create_instance, delete_instance,
}
use karpenter_provider_huawe.Operator.Run.{
  preload_types, preload_prices, made, preloaded, new_operator, refresh_types, update_prices,
  check_version, list_subnets, Step, listed, created, deleted, types_refreshed, prices_updated,
  version_checked, subnets_listed, waited, Running, started, runs_on,
}

module _ (B : Billing) where
  update-IsPriced :
      (region project_id : String) (infos : Map Flavor) (p : Pricing.State B)
      → IsPriced B p.on_demand_prices
      → IsPriced B (update_on_demand_pricing B region project_id infos p).1.on_demand_prices
  update-IsPriced region project_id infos p h =
      elim (update_on_demand_pricing-Updated B region project_id infos p).effect [
        | inl (e, failed, same) ↦ subst (IsPriced B) (sym same) h
        | inr (done, priced) ↦ priced
      ]

  -- The price of an instance type that is found is a price.
  lookup-IsPrice :
      (name : String) (prices : Map B.float.Float)
      → IsPriced B prices
      → IfSome (IsPrice B) (lookup name prices)
  unfolding lookup
  lookup-IsPrice name [] h = tt
  lookup-IsPrice name ((key, x) ∷ prices) h = elim (Bool-cases (key == name)) [
    | inl e ↦ rw e h.0
    | inr e ↦ rw e (lookup-IsPrice name prices h.1)
  ]

module _ (V : Services) where
  abbrev HasPrices : Operator V → Type 0
  HasPrices o = IsPriced V.billing o.prices.on_demand_prices

  preload_prices-HasPrices : (o : Operator V) → HasPrices o → HasPrices (preload_prices V o)
  unfolding preload_prices
  preload_prices-HasPrices o h = update-IsPriced V.billing _ _ _ o.prices h

  update_prices-HasPrices : (o : Operator V) → HasPrices o → HasPrices (update_prices V o)
  unfolding update_prices reconcile_pricing
  update_prices-HasPrices o h = update-IsPriced V.billing _ _ _ o.prices h

  Step-HasPrices : (o p : Operator V) → HasPrices o → Step V o p → HasPrices p
  unfolding list_types create_instance delete_instance refresh_types check_version list_subnets
  Step-HasPrices o p h (listed nc) = h
  Step-HasPrices o p h (created nc claim its) = h
  Step-HasPrices o p h (deleted id) = h
  Step-HasPrices o p h (types_refreshed fuel) = h
  Step-HasPrices o p h prices_updated = update_prices-HasPrices o h
  Step-HasPrices o p h (version_checked) = h
  Step-HasPrices o p h (subnets_listed nc response) = h
  Step-HasPrices o p h (waited nodes later) = h

  preloaded-HasPrices :
      (fuel : ℕ) (nodes : V.nodes.World) (ecs : V.ecs.World) (billing : V.billing.World)
      (checked : Option (Result (Unit {0})) × Version.State V.cluster)
      → IfSome HasPrices (preloaded V fuel nodes ecs billing checked)
  unfolding preloaded preload_types made Pricing.new_default_provider
  preloaded-HasPrices fuel nodes ecs billing (none, version) = tt
  preloaded-HasPrices fuel nodes ecs billing (some (err e), version) = tt
  preloaded-HasPrices fuel nodes ecs billing (some (ok done), version) =
      preload_prices-HasPrices (preload_types V fuel (made V nodes ecs billing version)) tt

  new_operator-HasPrices :
      (fuel : ℕ) (nodes : V.nodes.World) (ecs : V.ecs.World) (billing : V.billing.World)
      (cluster : V.cluster.World)
      → IfSome HasPrices (new_operator V fuel nodes ecs billing cluster)
  unfolding new_operator
  new_operator-HasPrices fuel nodes ecs billing cluster = elim (Bool-cases (V.cluster_id == "")) [
    | inl e ↦ rw e tt
    | inr e ↦ rw e (preloaded-HasPrices fuel nodes ecs billing _)
  ]

  Running-HasPrices : (o : Operator V) → Running V o → HasPrices o
  Running-HasPrices o (started fuel nodes ecs billing cluster o' e) =
      subst (IfSome HasPrices) e (new_operator-HasPrices fuel nodes ecs billing cluster)
  Running-HasPrices o (runs_on {o = q} r step) = Step-HasPrices q o (Running-HasPrices q r) step

  -- An on-demand price, by the price that is known of the instance type: this price, which is a
  -- price indeed, or the greatest number where none is known.
  abbrev pub IsOnDemandPrice : Option V.billing.float.Float → V.billing.float.Float → Type 0
  IsOnDemandPrice none price = price ≡ V.billing.float.max_float
  IsOnDemandPrice (some known) price = (price ≡ known) × IsPrice V.billing known

  -- The price of an offering of the instance type with this name: for on-demand by the price that is
  -- known, and for any other capacity type it is 0.
  abbrev pub IsFair : Operator V → String → Offering (Sched V) → Type 0
  IsFair o name offering =
      (zone : String) × (capacity_type : String) × (offering.requirements
        ≡ V.scheduling.new_in
            ((capacity_type_label_key, capacity_type ∷ []) ∷ (label_topology_zone, zone ∷ []) ∷ []))
      × ((capacity_type == capacity_type_on_demand) ≡ true
          → IsOnDemandPrice (lookup name o.prices.on_demand_prices) offering.price)
      × ((capacity_type == capacity_type_on_demand) ≡ false → offering.price ≡ V.billing.float.zero)

  known_price-IsFair :
      (found : Option V.billing.float.Float)
      → IfSome (IsPrice V.billing) found
      → IsOnDemandPrice found
          (known_price (Sched V) V.marks V.types V.capacities V.ecs V.monitor found)
  known_price-IsFair none h = refl
  known_price-IsFair (some x) h = (refl, h)

  offering_price-on_demand :
      (o : Operator V) (capacity_type name : String)
      → HasPrices o
      → (capacity_type == capacity_type_on_demand) ≡ true
      → IsOnDemandPrice (lookup name o.prices.on_demand_prices) (
          offering_price
            (Sched V)
            V.marks
            V.types
            V.capacities
            V.ecs
            V.monitor
            (price_of V o)
            capacity_type
            name)
  unfolding offering_price on_demand_price
  offering_price-on_demand o capacity_type name h e = rw e (
      known_price-IsFair (lookup name o.prices.on_demand_prices)
        (lookup-IsPrice V.billing name o.prices.on_demand_prices h))

  offering_price-other :
      (o : Operator V) (capacity_type name : String)
      → (capacity_type == capacity_type_on_demand) ≡ false
      → offering_price
          (Sched V)
          V.marks
          V.types
          V.capacities
          V.ecs
          V.monitor
          (price_of V o)
          capacity_type
          name
        ≡ V.billing.float.zero
  unfolding offering_price
  offering_price-other o capacity_type name e = rw e refl

  abbrev pub AllFair : Operator V → List (InstanceType (Sched V)) → Type 0
  AllFair o = All (λ it. All (IsFair o it.name) it.offerings)

  inject_offerings-AllFair :
      (o : Operator V) (s : Types V) (time : ℕ) (its : List (InstanceType (Sched V)))
      → HasPrices o
      → AllFair o (
          inject_offerings
            (Sched V)
            V.marks
            V.types
            V.capacities
            V.ecs
            V.monitor
            (price_of V o)
            time
            its
            s)
  unfolding inject_offerings with_offerings
  inject_offerings-AllFair o s time [] h = tt
  inject_offerings-AllFair o s time (it ∷ its) h = (
    All-map _ (IsFair o it.name)
        (λ offering (z, t, is_zone, is_type, free, price, reqs). (
          z,
          t,
          reqs,
          λ e. rw price (offering_price-on_demand o t it.name h e),
          λ e. price ∙ offering_price-other o t it.name e,
        ))
        _
        (create_offerings-Offered (Sched V) V.marks V.types V.capacities V.ecs V.monitor
          (price_of V o) time it s).made,
    inject_offerings-AllFair o s time its h,
  )

  listed-AllFair :
      (o : Operator V) (time : ℕ) (found : Result (Unit {0}))
      (answer : List (InstanceType (Sched V)) × Types V)
      → HasPrices o
      → IfOk
          (AllFair o)
          (if_discovered (Sched V) V.marks V.types V.capacities V.ecs V.monitor found o.types (
            inject_offerings
                (Sched V)
                V.marks
                V.types
                V.capacities
                V.ecs
                V.monitor
                (price_of V o)
                time
                answer.0
                answer.1,
            answer.1,
          )).0
  listed-AllFair o time (err e) answer h = tt
  listed-AllFair o time (ok done) answer h = inject_offerings-AllFair o answer.1 time answer.0 h

  -- Whatever an operator has done since it was started, the offerings that it lists for a node class
  -- have as on-demand price that which the pricing provider knows of the instance type, a number that
  -- is neither below 0 nor 0 nor infinite, or the greatest number exactly where it knows none; and 0
  -- for other capacity types.
  pub Running-AllFair :
      (o : Operator V) → Running V o → (nc : CceNodeClass) → IfOk (AllFair o) (list_types V nc o).0
  unfolding list_types list
  Running-AllFair o r nc =
      listed-AllFair o (now V o)
        (check_discovered (Sched V) V.marks V.types V.capacities V.ecs V.monitor o.types)
        (cached_or_resolved (Sched V) V.marks V.types V.capacities V.ecs V.monitor (some V.resolver)
          (now V o) nc o.types
          (V.types.get (now V o) (V.resolver.cache_key nc) o.types.instance_types_cache))
        (Running-HasPrices o r)
