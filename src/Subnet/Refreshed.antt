-- ===== src/Subnet/Refreshed.antt =====
-- The loop of List of pkg/providers/subnet/subnet.go over the subnets of a response.
use mathlib.Core.Bool.{◌||◌}
use karpenter_provider_huawe.Base.{
  ℕ, ◌+◌, ◌≡◌, ◌⊎◌, inl, inr, refl, sym, subst, leb, find, String, Bool, true, false, List, [], ◌∷◌,
  Option, none, some, ◌==◌, ◌&&◌, if◌then◌else◌, any, All, arith, eq_iff, Bool-cases,
}
use karpenter_provider_huawe.Base.Int.{ℤ}
use karpenter_provider_huawe.Base.Maps.{lookup, lookup-erase}
use karpenter_provider_huawe.Apis.{SubnetSelectorTerm}
use karpenter_provider_huawe.Ext.GoCache.{GoCache}
use karpenter_provider_huawe.Subnet.{
  VpcSubnet, State, put_subnet, matches_subnet_selector_terms, refresh,
}

-- Whether one of the subnets has the id.
abbrev pub has_id : String → List VpcSubnet → Bool
has_id id = any (λ s. s.id == id)

-- Whether one of the subnets has the id and matches the terms.
abbrev pub found : List SubnetSelectorTerm → String → List VpcSubnet → Bool
found terms id = any (λ s. matches_subnet_selector_terms s terms && (s.id == id))

put_subnet-All :
    (P : VpcSubnet → Type 0) (s : VpcSubnet) (ts : List VpcSubnet)
    → P s
    → All P ts
    → All P (put_subnet s ts)
put_subnet-All P s [] h k = (h, tt)
put_subnet-All P s (t ∷ ts) h k = elim (Bool-cases (t.id == s.id)) [
  | inl e ↦ rw e (h, k.1)
  | inr e ↦ rw e (k.0, put_subnet-All P s ts h k.1)
]

put_subnet-has_id :
    (id : String) (s : VpcSubnet) (ts : List VpcSubnet)
    → has_id id (put_subnet s ts) ≡ (s.id == id) || has_id id ts
put_subnet-has_id id s [] = refl
put_subnet-has_id id s (t ∷ ts) =
    ground (arith, eq_iff t.id s.id, eq_iff t.id id, eq_iff s.id id, put_subnet-has_id id s ts)

-- The last subnet with an id that matches, or the one before.
abbrev pub last_found :
    List SubnetSelectorTerm → String → Option VpcSubnet → List VpcSubnet → Option VpcSubnet
last_found terms id before [] = before
last_found terms id before (s ∷ rs) =
    last_found terms id
      (if matches_subnet_selector_terms s terms && (s.id == id) then some s else before) rs

-- What a cache says at `later` of a subnet that was put in with each match at `now`.
abbrev pub last_cached :
    ℕ → ℕ → List SubnetSelectorTerm → String → Option ℤ → List VpcSubnet → Option ℤ
last_cached later until terms id before [] = before
last_cached later until terms id before (s ∷ rs) =
    last_cached later until terms id
      (if matches_subnet_selector_terms s terms && (s.id == id)
        then (if leb later until then some s.available_ip_address_count else none)
        else before)
      rs

put_subnet-find :
    (id : String) (s : VpcSubnet) (ts : List VpcSubnet)
    → find (λ t. t.id == id) (put_subnet s ts)
      ≡ (if s.id == id then some s else find (λ t. t.id == id) ts)
put_subnet-find id s [] = refl
put_subnet-find id s (t ∷ ts) = elim (Bool-cases (t.id == s.id)) [
  | inl e ↦ rw e (
      subst
        (λ x.
          (if s.id == id then some s else find (λ u. u.id == id) ts)
          ≡ (if s.id == id then some s else if x == id then some t else find (λ u. u.id == id) ts))
        (sym ((eq_iff t.id s.id).0 e)) (twice (s.id == id)))
  | inr e ↦
      rw (e, put_subnet-find id s ts) (swap (Bool-cases (t.id == id)) (Bool-cases (s.id == id)) e)
]
  where
    twice :
        (b : Bool)
        → (if b then some s else find (λ u. u.id == id) ts)
          ≡ (if b then some s else if b then some t else find (λ u. u.id == id) ts)
    twice true = refl
    twice false = refl

    swap :
        ((t.id == id) ≡ true) ⊎ ((t.id == id) ≡ false)
        → ((s.id == id) ≡ true) ⊎ ((s.id == id) ≡ false)
        → (t.id == s.id) ≡ false
        → (if t.id == id then some t else if s.id == id then some s else find (λ u. u.id == id) ts)
          ≡ (if s.id == id
              then some s
              else if t.id == id
              then some t
              else find (λ u. u.id == id) ts)
    swap (inr a) b e = rw a refl
    swap (inl a) (inr b) e = rw (a, b) refl
    swap (inl a) (inl b) e =
        let impossible : ⊥ =
          ground (arith, e, a, b, eq_iff t.id id, eq_iff s.id id, eq_iff t.id s.id) in
        absurd impossible

-- No two of the subnets have the same id.
abbrev pub HasDistinctIds : List VpcSubnet → Type 0
HasDistinctIds [] = Unit
HasDistinctIds (s ∷ ss) = (has_id s.id ss ≡ false) × HasDistinctIds ss

put_subnet-HasDistinctIds :
    (s : VpcSubnet) (ts : List VpcSubnet) → HasDistinctIds ts → HasDistinctIds (put_subnet s ts)
put_subnet-HasDistinctIds s [] h = (refl, tt)
put_subnet-HasDistinctIds s (t ∷ ts) h = elim (Bool-cases (t.id == s.id)) [
  | inl e ↦ rw e (subst (λ id. has_id id ts ≡ false) ((eq_iff t.id s.id).0 e) h.0, h.1)
  | inr e ↦ rw e (
    ground (arith, put_subnet-has_id t.id s ts, eq_iff t.id s.id, eq_iff s.id t.id, h.0),
    put_subnet-HasDistinctIds s ts h.1,
  )
]

module _ (C : GoCache (List VpcSubnet)) (A : GoCache ℤ) (now : ℕ)
    (terms : List SubnetSelectorTerm) where
  abbrev pub IsMatch : VpcSubnet → Type 0
  IsMatch s = matches_subnet_selector_terms s terms ≡ true

  pub refresh-IsMatch :
      (rs : List VpcSubnet) (p : State C A) (subnets : List VpcSubnet)
      → All IsMatch subnets
      → All IsMatch (refresh C A now terms rs p subnets).1
  unfolding refresh
  refresh-IsMatch [] p subnets h = h
  refresh-IsMatch (s ∷ rs) p subnets h = elim (Bool-cases (matches_subnet_selector_terms s terms)) [
    | inl e ↦ rw e (refresh-IsMatch rs _ _ (put_subnet-All IsMatch s subnets e h))
    | inr e ↦ rw e (refresh-IsMatch rs p subnets h)
  ]

  pub refresh-HasDistinctIds :
      (rs : List VpcSubnet) (p : State C A) (subnets : List VpcSubnet)
      → HasDistinctIds subnets
      → HasDistinctIds (refresh C A now terms rs p subnets).1
  unfolding refresh
  refresh-HasDistinctIds [] p subnets h = h
  refresh-HasDistinctIds (s ∷ rs) p subnets h =
      elim (Bool-cases (matches_subnet_selector_terms s terms)) [
        | inl e ↦ rw e (refresh-HasDistinctIds rs _ _ (put_subnet-HasDistinctIds s subnets h))
        | inr e ↦ rw e (refresh-HasDistinctIds rs p subnets h)
      ]

  pub refresh-has_id :
      (id : String) (rs : List VpcSubnet) (p : State C A) (subnets : List VpcSubnet)
      → has_id id (refresh C A now terms rs p subnets).1 ≡ has_id id subnets || found terms id rs
  unfolding refresh
  refresh-has_id id [] p subnets = ground arith
  refresh-has_id id (s ∷ rs) p subnets = elim (Bool-cases (matches_subnet_selector_terms s terms)) [
    | inl e ↦ rw (e, refresh-has_id id rs) (ground (arith, put_subnet-has_id id s subnets))
    | inr e ↦ rw (e, refresh-has_id id rs) refl
  ]

  pub refresh-find :
      (id : String) (rs : List VpcSubnet) (p : State C A) (subnets : List VpcSubnet)
      → find (λ s. s.id == id) (refresh C A now terms rs p subnets).1
        ≡ last_found terms id (find (λ s. s.id == id) subnets) rs
  unfolding refresh
  refresh-find id [] p subnets = refl
  refresh-find id (s ∷ rs) p subnets = elim (Bool-cases (matches_subnet_selector_terms s terms)) [
    | inl e ↦ rw (e, refresh-find id rs, put_subnet-find id s subnets) refl
    | inr e ↦ rw (e, refresh-find id rs) refl
  ]

  pub refresh-counts :
      (later : ℕ) (id : String) (rs : List VpcSubnet) (p : State C A) (subnets : List VpcSubnet)
      → A.get later id (refresh C A now terms rs p subnets).0.available_ip_address_cache
        ≡ last_cached later
            (now + A.default_ttl)
            terms
            id
            (A.get later id p.available_ip_address_cache)
            rs
  unfolding refresh
  refresh-counts later id [] p subnets = refl
  refresh-counts later id (s ∷ rs) p subnets =
      elim (Bool-cases (matches_subnet_selector_terms s terms)) [
        | inl e ↦
            rw
              (
                e,
                refresh-counts later id rs,
                A.get-set now later A.default_ttl s.id id s.available_ip_address_count
                    p.available_ip_address_cache,
              )
              refl
        | inr e ↦ rw (e, refresh-counts later id rs) refl
      ]

  pub refresh-inflight :
      (id : String) (rs : List VpcSubnet) (p : State C A) (subnets : List VpcSubnet)
      → lookup id (refresh C A now terms rs p subnets).0.inflight_ips
        ≡ (if found terms id rs then none else lookup id p.inflight_ips)
  unfolding refresh
  refresh-inflight id [] p subnets = refl
  refresh-inflight id (s ∷ rs) p subnets =
      elim (Bool-cases (matches_subnet_selector_terms s terms)) [
        | inl e ↦
            rw (e, refresh-inflight id rs) (ground (arith, lookup-erase s.id id p.inflight_ips))
        | inr e ↦ rw (e, refresh-inflight id rs) refl
      ]
