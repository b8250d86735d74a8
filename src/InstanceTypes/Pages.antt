-- ===== src/InstanceTypes/Pages.antt =====
-- The loop of fetchInstanceTypes of pkg/providers/instancetype/instancetype.go, over a service that
-- pages through a list of flavors.
use karpenter_provider_huawe.Base.{
  ℕ, zero, suc, ◌*◌, ◌≤◌, ◌<◌, ◌≡◌, refl, sym, ◌∙◌, ap, String, false, List, [], ◌∷◌, ◌++◌, Option,
  none, some, ◌==◌, ltb, lt→ltb, le→not_ltb, ltb→lt, not_ltb→le, length, take, drop, is_empty,
  length-take, length-drop, take-append-drop, Result, ok, err, wrapped, Bool-cases, inl, inr, arith,
}
use mathlib.Core.List.{append_assoc}
use karpenter_provider_huawe.Ext.Ecs.{Flavor, EcsApi}
use karpenter_provider_huawe.InstanceTypes.Fetch.{
  list_flavors_page_size, from_ptr, last_flavor_id, last, next, fails, is_marker, page_end,
  fetch_pages, fetch_instance_types,
}

-- The marker after the flavors of `front`: there is none before the first page.
abbrev pub marker_of : List Flavor → Option String
marker_of [] = none
marker_of (f ∷ fs) = some (last_flavor_id (f ∷ fs))

-- ListFlavors as it is documented: after a marker it answers with the flavors that follow the one
-- with that id, as many as the limit says; ids are not empty and no two are the same.
pub record Paged (E : EcsApi) (flavors : List Flavor) : Type 0 where
  pub answers :
      (front rest : List Flavor) (w : E.World)
      → front ++ rest ≡ flavors
      → (E.list_flavors list_flavors_page_size (marker_of front) w).0
        ≡ ok (some (take list_flavors_page_size rest))
  pub named :
      (front page rest : List Flavor)
      → front ++ page ++ rest ≡ flavors
      → is_empty page ≡ false
      → (last_flavor_id page == "") ≡ false
  pub advances :
      (front page rest : List Flavor)
      → front ++ page ++ rest ≡ flavors
      → is_empty page ≡ false
      → is_marker (marker_of front) (last_flavor_id page) ≡ false

take_all : (n : ℕ) (fs : List Flavor) → length fs ≤ n → take n fs ≡ fs
take_all zero [] h = refl
take_all zero (f ∷ fs) h = let impossible : ⊥ = omega (arith, h) in absurd impossible
take_all (suc n) [] h = refl
take_all (suc n) (f ∷ fs) h = ap (◌∷◌ f) (take_all n fs (omega (arith, h)))

last_flavor_id-append :
    (front page : List Flavor)
    → is_empty page ≡ false
    → last_flavor_id (front ++ page) ≡ last_flavor_id page
last_flavor_id-append [] page h = refl
last_flavor_id-append (f ∷ []) [] h = cc
last_flavor_id-append (f ∷ []) (p ∷ page) h = refl
last_flavor_id-append (f ∷ g ∷ front) page h = last_flavor_id-append (g ∷ front) page h

marker_of-append :
    (front page : List Flavor)
    → is_empty page ≡ false
    → marker_of (front ++ page) ≡ some (last_flavor_id page)
marker_of-append [] [] h = cc
marker_of-append [] (p ∷ page) h = refl
marker_of-append (f ∷ front) page h = ap some (last_flavor_id-append (f ∷ front) page h)

page_end-last :
    (marker : Option String) (page : List Flavor)
    → length page < list_flavors_page_size
    → page_end marker page ≡ last
unfolding page_end
page_end-last marker page h = rw (lt→ltb (length page) 1000 h) refl

page_end-next :
    (marker : Option String) (page : List Flavor)
    → list_flavors_page_size ≤ length page
    → (last_flavor_id page == "") ≡ false
    → is_marker marker (last_flavor_id page) ≡ false
    → page_end marker page ≡ next (last_flavor_id page)
unfolding page_end
page_end-next marker page h n m = rw (le→not_ltb (length page) 1000 h, n, m) refl

is_empty-of_length : (page : List Flavor) → 1 ≤ length page → is_empty page ≡ false
is_empty-of_length [] h = let impossible : ⊥ = omega (arith, h) in absurd impossible
is_empty-of_length (f ∷ fs) h = refl

module _ (E : EcsApi) (flavors : List Flavor) (P : Paged E flavors) where
  continue :
      ℕ
      → Option String
      → List Flavor
      → Result (Option (List Flavor)) × E.World
      → Option (Result (List Flavor)) × E.World
  continue fuel marker found a =
      let (answer, w') = a in
      elim answer [
        | err e ↦ (some (err (wrapped "list flavors, %w" e)), w')
        | ok page ↦
            let all = found ++ from_ptr page in
            elim (page_end marker (from_ptr page)) [
              | last ↦ (some (ok all), w')
              | fails e ↦ (some (err e), w')
              | next id ↦ fetch_pages E fuel (some id) all w'
            ]
      ]

  fetch_pages-continue :
      (fuel : ℕ) (marker : Option String) (found : List Flavor) (w : E.World)
      → fetch_pages E (suc fuel) marker found w
        ≡ continue fuel marker found (E.list_flavors list_flavors_page_size marker w)
  unfolding fetch_pages continue
  fetch_pages-continue fuel marker found w = refl

  continue-last :
      (fuel : ℕ) (marker : Option String) (found page : List Flavor)
      (a : Result (Option (List Flavor)) × E.World)
      → a.0 ≡ ok (some page)
      → page_end marker page ≡ last
      → (continue fuel marker found a).0 ≡ some (ok (found ++ page))
  unfolding continue
  continue-last fuel marker found page (answer, w) e h = rw (e, continue, h) refl

  continue-next :
      (fuel : ℕ) (marker : Option String) (found page : List Flavor) (id : String)
      (a : Result (Option (List Flavor)) × E.World)
      → a.0 ≡ ok (some page)
      → page_end marker page ≡ next id
      → continue fuel marker found a ≡ fetch_pages E fuel (some id) (found ++ page) a.1
  unfolding continue
  continue-next fuel marker found page id (answer, w) e h = rw (e, continue, h) refl

  fetch_pages-all :
      (fuel : ℕ) (front rest : List Flavor) (w : E.World)
      → front ++ rest ≡ flavors
      → length rest < fuel * list_flavors_page_size
      → (fetch_pages E fuel (marker_of front) front w).0 ≡ some (ok flavors)
  fetch_pages-all zero front rest w e n = let impossible : ⊥ = omega (arith, n) in absurd impossible
  fetch_pages-all (suc fuel) front rest w e n =
      let page = take list_flavors_page_size rest in
      let answer = P.answers front rest w e in
      let whole : front ++ page ++ drop list_flavors_page_size rest ≡ flavors =
        append_assoc front page _
        ∙ ap (λ fs. front ++ fs) (take-append-drop list_flavors_page_size rest)
        ∙ e in
      ap (λ o. o.0) (fetch_pages-continue fuel (marker_of front) front w)
      ∙ elim (Bool-cases (ltb (length page) list_flavors_page_size)) [
        | inl short ↦
            continue-last fuel (marker_of front) front page _ answer
              (page_end-last _ page (ltb→lt _ _ short))
            ∙ ap (λ fs. some (ok (front ++ fs)))
                (take_all list_flavors_page_size rest
                  (omega (arith, ltb→lt _ _ short, length-take list_flavors_page_size rest)))
            ∙ ap (λ fs. some (ok fs)) e
        | inr full ↦
            let long : list_flavors_page_size ≤ length page = not_ltb→le _ _ full in
            let some_page = is_empty-of_length page (omega (arith, long)) in
            ap (λ o. o.0)
              (continue-next fuel (marker_of front) front page _ _ answer (
                page_end-next _ page long (P.named front page _ whole some_page)
                  (P.advances front page _ whole some_page)))
            ∙ ap
                (λ m.
                  (fetch_pages E fuel m (front ++ page)
                    (E.list_flavors list_flavors_page_size (marker_of front) w).1).0)
                (sym (marker_of-append front page some_page))
            ∙ fetch_pages-all fuel (front ++ page) (drop list_flavors_page_size rest) _ whole (
                omega (
                  arith,
                  n,
                  long,
                  length-take list_flavors_page_size rest,
                  length-drop list_flavors_page_size rest,
                ))
      ]

  -- With fuel for more pages than the service has full ones, fetchInstanceTypes ends and returns
  -- exactly the flavors of the service, in their order, where the service pages as it is documented
  -- to.
  pub fetch_instance_types-all :
      (fuel : ℕ) (w : E.World)
      → length flavors < fuel * list_flavors_page_size
      → (fetch_instance_types E fuel w).0 ≡ some (ok flavors)
  unfolding fetch_instance_types
  fetch_instance_types-all fuel w n = fetch_pages-all fuel [] flavors w refl n
