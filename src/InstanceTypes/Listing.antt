-- ===== src/InstanceTypes/Listing.antt =====
-- What List of pkg/providers/instancetype/instancetype.go answers from its cache.
use karpenter_provider_huawe.Base.{
  ℕ, ◌+◌, ◌≤◌, ◌≡◌, refl, sym, ◌∙◌, ap, List, [], ◌∷◌, Option, none, some, Result, ok, err, Error,
  eq_refl, Result-cases, Option-cases, inl, inr, arith,
}
use karpenter_provider_huawe.Ext.Ecs.{EcsApi}
use karpenter_provider_huawe.Ext.GoCache.{GoCache}
use karpenter_provider_huawe.Ext.Scheduling.{Scheduling, InstanceType}
use karpenter_provider_huawe.OfferingCache.{OfferingCache}
use karpenter_provider_huawe.InstanceTypes.{
  Resolver, ChangeMonitor, State, PriceOf, with_offerings, inject_offerings, create_offerings,
}
use karpenter_provider_huawe.InstanceTypes.Serve.{
  cache_key, cached_or_resolved, check_discovered, list, if_discovered,
}

module _ (S : Scheduling) (G : GoCache (Unit {0})) (T : GoCache (List (InstanceType S)))
    (D : GoCache ℕ) (E : EcsApi) (M : ChangeMonitor) (price : PriceOf S G T D E M) where
  abbrev pub Provider : Type 0
  Provider = State S G T D E M

  inject_offerings_twice :
      (now later : ℕ) (s m : Provider) (its : List (InstanceType S))
      → inject_offerings S G T D E M price later (inject_offerings S G T D E M price now its s) m
        ≡ inject_offerings S G T D E M price later its m
  unfolding inject_offerings with_offerings create_offerings
  inject_offerings_twice now later s m [] = refl
  inject_offerings_twice now later s m (it ∷ its) =
      ap (◌∷◌ (with_offerings S G T D E M price later m it))
        (inject_offerings_twice now later s m its)

  -- The answer of List with the offerings made anew.
  abbrev pub renewed :
      ℕ → Provider → Result (List (InstanceType S)) → Result (List (InstanceType S))
  renewed now s (err e) = err e
  renewed now s (ok its) = ok (inject_offerings S G T D E M price now its s)

  abbrev pub with_marks : Option (OfferingCache G) → Provider → Provider
  with_marks marks s = record s { offering_availability_cache = marks }

  module _ {C : Type 0} (resolver : Option (Resolver S C)) where
    list-cached :
        (now : ℕ) (nc : C) (s : Provider) (its : List (InstanceType S))
        → T.get now (cache_key S G T D E M resolver nc) s.instance_types_cache ≡ some its
        → check_discovered S G T D E M s ≡ ok tt
        → (list S G T D E M resolver price now nc s).0
          ≡ ok (inject_offerings S G T D E M price now its s)
    unfolding list cached_or_resolved
    list-cached now nc s its e found = rw (e, found) refl

    -- The instance types resolved now, and the provider with them in its cache.
    abbrev filled : ℕ → C → Provider → List (InstanceType S) × Provider
    filled now nc s = cached_or_resolved S G T D E M resolver now nc s none

    list-missing :
        (now : ℕ) (nc : C) (s : Provider)
        → T.get now (cache_key S G T D E M resolver nc) s.instance_types_cache ≡ none
        → list S G T D E M resolver price now nc s
          ≡ if_discovered S G T D E M (check_discovered S G T D E M s) s (
            inject_offerings S G T D E M price now (filled now nc s).0 (filled now nc s).1,
            (filled now nc s).1,
          )
    unfolding list cached_or_resolved
    list-missing now nc s e = rw e refl

    filled-get :
        (now later : ℕ) (nc : C) (s : Provider)
        → later ≤ now + T.default_ttl
        → T.get later (cache_key S G T D E M resolver nc) (filled now nc s).1.instance_types_cache
          ≡ some (filled now nc s).0
    unfolding cached_or_resolved
    filled-get now later nc s live =
        rw
          (
            T.get-set now later T.default_ttl (cache_key S G T D E M resolver nc)
                (cache_key S G T D E M resolver nc),
            eq_refl (cache_key S G T D E M resolver nc),
          )
          (ground (arith, live))

    check_discovered-filled :
        (now : ℕ) (nc : C) (s : Provider) (marks : Option (OfferingCache G))
        → check_discovered S G T D E M (with_marks marks (filled now nc s).1)
          ≡ check_discovered S G T D E M s
    unfolding cached_or_resolved
    check_discovered-filled now nc s marks = refl

    list-undiscovered :
        (now : ℕ) (nc : C) (s : Provider) (e : Error)
        → check_discovered S G T D E M s ≡ err e
        → list S G T D E M resolver price now nc s ≡ (err e, s)
    unfolding list
    list-undiscovered now nc s e refused =
        elim (Option-cases (T.get now (cache_key S G T D E M resolver nc) s.instance_types_cache)) [
          | inl none_cached ↦ rw (none_cached, refused) refl
          | inr (its, cached) ↦ rw (cached, refused) refl
        ]

    -- A List that finds no entry resolves the instance types, and a List for the same node class
    -- before that entry expires answers with the same instance types, or the same error: only the
    -- offerings are those of its own time and of the marks that are set by then.
    pub list-renewed :
        (now later : ℕ) (nc : C) (s : Provider) (marks : Option (OfferingCache G))
        → T.get now (cache_key S G T D E M resolver nc) s.instance_types_cache ≡ none
        → later ≤ now + T.default_ttl
        → (list S G T D E M resolver price later nc
            (with_marks marks (list S G T D E M resolver price now nc s).1)).0
          ≡ renewed later
              (with_marks marks (list S G T D E M resolver price now nc s).1)
              (list S G T D E M resolver price now nc s).0
    list-renewed now later nc s marks missing live =
        rw (list-missing now nc s missing) (elim (Result-cases (check_discovered S G T D E M s)) [
          | inl (done, found) ↦ rw found (
              list-cached later nc (with_marks marks (filled now nc s).1) _
                (filled-get now later nc s live) (check_discovered-filled now nc s marks ∙ found)
              ∙ (ap ok (sym (inject_offerings_twice now later _ _ (filled now nc s).0))))
          | inr (e, refused) ↦
              rw refused (ap (λ x. x.0) (list-undiscovered later nc (with_marks marks s) e refused))
        ])
