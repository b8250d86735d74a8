-- ===== src/Pricing/Batch.antt =====
-- The loop of fetchOnDemandPricingBatch of pkg/providers/pricing/pricing.go: how it ends, and what
-- becomes of the products of the batch.
use karpenter_provider_huawe.Base.{
  ℕ, zero, suc, ◌≤◌, ◌≡◌, refl, sym, subst, String, ◌⊎◌, inl, inr, List, [], ◌∷◌, Option, none,
  some, length, IsIn, All, All-map, ok, arith,
}
use karpenter_provider_huawe.Ext.Billing.{Billing}
use karpenter_provider_huawe.Pricing.{
  ProductInfo, ends, goes_on, Session, Round, round, fetch_on_demand_pricing_batch,
}
use karpenter_provider_huawe.Pricing.Rounds.{Answer, FewerIf, IsMarked, KeepsMarks, round-FewerIf}

module _ (B : Billing) where
  -- What a batch ends with: the answer to the last request, or the empty one if no product is left;
  -- every product of it is in the last request, or marked.
  pub record Ended (project_id : String) (ps : List ProductInfo) (marked : List String)
      (o : Option (Answer B) × Session B) : Type 0 where
    pub answer : Answer B
    pub asked : List ProductInfo
    pub finished : o.0 ≡ some answer
    pub ending :
        ((asked ≡ []) × (answer ≡ ok none))
        ⊎ ((s : Session B) × (round B project_id asked s ≡ (ends answer, o.1)))
    pub keeps : KeepsMarks marked o.1.unsupported_products
    pub kept : All (λ p. IsIn p asked ⊎ IsMarked o.1.unsupported_products p) ps

  continue : String → ℕ → Round B × Session B → Option (Answer B) × Session B
  continue project_id fuel a =
      let (r, s') = a in
      elim r [
        | ends answer ↦ (some answer, s')
        | goes_on remaining ↦ fetch_on_demand_pricing_batch B project_id fuel remaining s'
      ]

  batch-continue :
      (project_id : String) (fuel : ℕ) (p : ProductInfo) (ps : List ProductInfo) (s : Session B)
      → fetch_on_demand_pricing_batch B project_id (suc fuel) (p ∷ ps) s
        ≡ continue project_id fuel (round B project_id (p ∷ ps) s)
  unfolding fetch_on_demand_pricing_batch continue
  batch-continue project_id fuel p ps s = refl

  all-IsIn : (ps : List ProductInfo) (u : List String) → All (λ p. IsIn p ps ⊎ IsMarked u p) ps
  all-IsIn [] u = tt
  all-IsIn (p ∷ ps) u = (inl (inl refl), All-map _ _ further ps (all-IsIn ps u))
    where
      further : (q : ProductInfo) → IsIn q ps ⊎ IsMarked u q → IsIn q (p ∷ ps) ⊎ IsMarked u q
      further q (inl i) = inl (inr i)
      further q (inr m) = inr m

  -- The products that a round leaves and those that the rest of the batch leaves, together.
  through :
      (ps qs asked : List ProductInfo) (u v : List String)
      → KeepsMarks u v
      → All (λ p. IsIn p asked ⊎ IsMarked v p) qs
      → (p : ProductInfo) → IsIn p qs ⊎ IsMarked u p
      → IsIn p asked ⊎ IsMarked v p
  through ps qs asked u v k h p (inr m) = inr (k p.instance_type m)
  through ps [] asked u v k h p (inl i) = absurd i.lower
  through ps (q ∷ qs) asked u v k h p (inl (inl e)) =
      subst (λ x. IsIn x asked ⊎ IsMarked v x) (sym e) h.0
  through ps (q ∷ qs) asked u v k h p (inl (inr i)) = through ps qs asked u v k h.1 p (inl i)

  then-Ended :
      (project_id : String) (fuel : ℕ) (ps : List ProductInfo) (s : Session B)
      (a : Round B × Session B)
      → length ps ≤ suc fuel
      → round B project_id ps s ≡ a
      → FewerIf B ps s a
      → ((qs : List ProductInfo) (s' : Session B)
          → length qs ≤ fuel
          → Ended project_id qs s'.unsupported_products
              (fetch_on_demand_pricing_batch B project_id fuel qs s'))
      → Ended project_id ps s.unsupported_products (continue project_id fuel a)
  unfolding continue
  then-Ended project_id fuel ps s (ends answer, s') n e f rest = record {
    answer = answer;
    asked = ps;
    finished = refl;
    ending = inr (s, e);
    keeps = λ name h. rw f h;
    kept = all-IsIn ps _;
  }
  then-Ended project_id fuel ps s (goes_on qs, s') n e f rest =
      let r = rest qs s' (omega (arith, n, f.shorter)) in
      record {
        answer = r.answer;
        asked = r.asked;
        finished = r.finished;
        ending = r.ending;
        keeps = λ name h. r.keeps name (f.keeps name h);
        kept = All-map _ _ (through ps qs r.asked _ _ r.keeps r.kept) ps f.kept;
      }

  -- With as much fuel as a batch has products, its loop ends: it returns what the billing service
  -- answers to the last request, or the empty answer when no product is left, and each product of
  -- the batch is in that request or is marked as unsupported; what was marked stays marked.
  pub fetch_on_demand_pricing_batch-Ended :
      (project_id : String) (fuel : ℕ) (ps : List ProductInfo) (s : Session B)
      → length ps ≤ fuel
      → Ended project_id ps s.unsupported_products
          (fetch_on_demand_pricing_batch B project_id fuel ps s)
  unfolding fetch_on_demand_pricing_batch
  fetch_on_demand_pricing_batch-Ended project_id fuel [] s n = record {
    answer = ok none;
    asked = [];
    finished = refl;
    ending = inl (refl, refl);
    keeps = λ name h. h;
    kept = tt;
  }
  fetch_on_demand_pricing_batch-Ended project_id zero (p ∷ ps) s n =
      let impossible : ⊥ = omega (arith, n) in absurd impossible
  fetch_on_demand_pricing_batch-Ended project_id (suc fuel) (p ∷ ps) s n =
      subst (Ended project_id (p ∷ ps) s.unsupported_products)
        (sym (batch-continue project_id fuel p ps s))
        (then-Ended project_id fuel (p ∷ ps) s _ n refl (round-FewerIf B project_id (p ∷ ps) s)
          (fetch_on_demand_pricing_batch-Ended project_id fuel))
