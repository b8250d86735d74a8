-- ===== src/Subnet/Fleet.antt =====
-- The provider of pkg/providers/subnet/subnet.go with the launches under way, and what each call of
-- SelectForLaunch, ReleaseInflightIPs and List does to them.
use karpenter_provider_huawe.Base.{
  ℕ, zero, suc, ◌+◌, ◌^◌, ◌≤◌, ◌<◌, ◌≡◌, refl, sym, ◌∙◌, subst, inl, inr, String, Bool, true, false,
  List, ◌∷◌, ◌++◌, Option, none, some, ◌==◌, if◌then◌else◌, eqb, Result, ok, arith, All, Bool-cases,
  Option-cases, eq_iff,
}
use karpenter_provider_huawe.Base.Int.{ℤ, pos, pos_part, neg_part, eqb_ℤ, IsInt32, ◌-i32◌, ◌+i32◌}
use karpenter_provider_huawe.Base.Maps.{lookup}
use karpenter_provider_huawe.Apis.{SubnetSelectorTerm, CceNodeClass}
use karpenter_provider_huawe.Ext.GoCache.{GoCache}
use karpenter_provider_huawe.Ext.Scheduling.{Scheduling, InstanceType}
use karpenter_provider_huawe.Subnet.{
  VpcSubnet, LaunchSubnet, State, or_else, reserve, release_tracked, release_inflight_ips,
  select_for_launch, list,
}
use karpenter_provider_huawe.Subnet.Selection.{Named}
use karpenter_provider_huawe.Subnet.Listing.{fetched}
use karpenter_provider_huawe.Subnet.Refreshed.{found}
use karpenter_provider_huawe.Subnet.Accounts.{
  outstanding, outstanding-append, IsHeld, nonneg_pos, released-lookup, reserve-lookup,
}
use karpenter_provider_huawe.Subnet.Counted.{
  Counted, Counted-reserve, Counted-release, after, last_count, last_count-not_found,
}

module _ (C : GoCache (List VpcSubnet)) (A : GoCache ℤ) where
  -- The provider with the launches under way, the count that is cached of each subnet, and whether
  -- the subnet is steady: no listing has come between launches on it.
  pub record Fleet : Type 0 where
    pub provider : State C A
    pub held : List LaunchSubnet
    pub base : String → ℤ
    pub steady : String → Bool

  -- What is tracked of the subnets agrees with the launches under way.
  pub record IsCounted (s : Fleet) : Type 0 where
    pub holds : All IsHeld s.held
    pub int32 : (id : String) → IsInt32 (s.base id)
    pub counted :
        (id : String)
        → Counted
            (s.steady id)
            (lookup id s.provider.inflight_ips)
            (outstanding id s.held)
            (s.base id)

  -- A launch begins: its subnets are named, their counts are cached, and the counts less all
  -- reservations stay in the range of int32. Or one ends, in any order, and gives its addresses back,
  -- which added to the count stay in that range. Or List is called for a node class: the subnets that
  -- it stores have new counts, and are steady just if no launch on them is under way.
  pub data Move (S : Scheduling) (s : Fleet) : Fleet → Type 0 where
    launched :
        (now : ℕ) (c : CceNodeClass) (its : List (InstanceType S)) (capacity_type : String)
        (l : LaunchSubnet)
        → Named c.status_subnets
        → All
            (λ n. A.get now n.id s.provider.available_ip_address_cache ≡ some (s.base n.id))
            c.status_subnets
        → (select_for_launch C A S now c its capacity_type s.provider).0 ≡ ok l
        → neg_part (s.base l.id) + outstanding l.id s.held + pos_part l.reserved_ip_address_count
          ≤ 2 ^ 31 + pos_part (s.base l.id)
        → Move S s (record s {
          provider = (select_for_launch C A S now c its capacity_type s.provider).1;
          held = l ∷ s.held;
        })
    returned :
        (now : ℕ) (before after : List LaunchSubnet) (l : LaunchSubnet)
        → s.held ≡ before ++ l ∷ after
        → A.get now l.id s.provider.available_ip_address_cache ≡ some (s.base l.id)
        → pos_part (s.base l.id) + pos_part l.reserved_ip_address_count
          < 2 ^ 31 + neg_part (s.base l.id)
        → Move S s (record s {
          provider = (release_inflight_ips C A now (some l) s.provider).1;
          held = before ++ after;
        })
    listed :
        (now : ℕ) (c : CceNodeClass) (answer : Result (List VpcSubnet))
        → All (λ n. IsInt32 n.available_ip_address_count) (fetched C A now c answer s.provider)
        → Move S s (record s {
          provider = (list C A now c answer s.provider).1;
          base = λ id.
              last_count c.spec.subnet_selector_terms id
                (s.base id)
                (fetched C A now c answer s.provider);
          steady = λ id.
              if found c.spec.subnet_selector_terms id (fetched C A now c answer s.provider)
              then eqb (outstanding id s.held) 0
              else s.steady id;
        })

  pub data Reach (S : Scheduling) (s : Fleet) : Fleet → Type 0 where
    here : Reach S s s
    next : {t u : Fleet} → Reach S s t → Move S t u → Reach S s u

  zero_if : (b : Bool) (n : ℕ) → (if b then 0 else 0) + n ≡ n
  zero_if b n = ground arith

  release-lookup :
      (now : ℕ) (id j : String) (k : ℕ) (base : ℤ) (p : State C A)
      → A.get now id p.available_ip_address_cache ≡ some base
      → lookup j (release_tracked C A now id (pos k) (lookup id p.inflight_ips) p).inflight_ips
        ≡ (if id == j then after (lookup id p.inflight_ips) k base else lookup j p.inflight_ips)
  unfolding release_tracked
  release-lookup now id j k base p fresh = elim (Option-cases (lookup id p.inflight_ips)) [
    | inl e ↦ rw e (elim (Bool-cases (id == j)) [
      | inl same ↦ rw same (subst (λ x. lookup x p.inflight_ips ≡ none) ((eq_iff id j).0 same) e)
      | inr other ↦ rw other refl
    ])
    | inr (v, e) ↦ rw (e, fresh) (released-lookup C A id j (v +i32 pos k) base p.inflight_ips)
  ]

  module _ (S : Scheduling) (s : Fleet) (b : IsCounted s) where
    pub reserved-Counted :
        (id j : String) (available : ℤ) (k : ℕ)
        → available ≡ or_else (lookup id s.provider.inflight_ips) (s.base id)
        → neg_part (s.base id) + outstanding id s.held + k ≤ 2 ^ 31 + pos_part (s.base id)
        → Counted
            (s.steady j)
            (lookup j (reserve C A id available (pos k) s.provider).inflight_ips)
            ((if id == j then k else 0) + outstanding j s.held)
            (s.base j)
    unfolding reserve
    reserved-Counted id j available zero e fits =
        subst (λ n. Counted (s.steady j) (lookup j s.provider.inflight_ips) n (s.base j))
          (sym (zero_if (id == j) _)) (b.counted j)
    reserved-Counted id j available (suc k) e fits =
        rw (reserve-lookup C A s.base id j available (suc k) s.provider (omega arith))
          (elim (Bool-cases (id == j)) [
            | inl same ↦ rw same (
                subst
                  (λ x.
                    Counted (s.steady x)
                      (some
                        (or_else (lookup id s.provider.inflight_ips) available -i32 pos (suc k)))
                      (suc k + outstanding x s.held) (s.base x))
                  ((eq_iff id j).0 same)
                  (Counted-reserve (s.steady id) (lookup id s.provider.inflight_ips)
                    (outstanding id s.held) (suc k) (s.base id) available (b.counted id) e
                    (omega arith) (b.int32 id) fits))
            | inr other ↦ rw other (
                subst (λ n. Counted (s.steady j) (lookup j s.provider.inflight_ips) n (s.base j))
                  (sym (zero_if false _)) (b.counted j))
          ])

    -- `rest` are the launches that stay under way.
    released-Counted :
        (now : ℕ) (id j : String) (k : ℕ) (rest : List LaunchSubnet)
        → ((x : String) → outstanding x s.held ≡ (if id == x then k else 0) + outstanding x rest)
        → 0 < k
        → A.get now id s.provider.available_ip_address_cache ≡ some (s.base id)
        → pos_part (s.base id) + k < 2 ^ 31 + neg_part (s.base id)
        → Counted
            (s.steady j)
            (lookup j
              (release_tracked C A now id
                (pos k)
                (lookup id s.provider.inflight_ips)
                s.provider).inflight_ips)
            (outstanding j rest)
            (s.base j)
    released-Counted now id j k rest split pk fresh fits =
        rw (release-lookup now id j k (s.base id) s.provider fresh) (elim (Bool-cases (id == j)) [
          | inl same ↦ rw same (
              subst
                (λ x.
                  outstanding x s.held ≡ k + outstanding x rest
                  → Counted (s.steady x) (after (lookup id s.provider.inflight_ips) k (s.base id))
                      (outstanding x rest) (s.base x))
                ((eq_iff id j).0 same)
                (λ own.
                  Counted-release (s.steady id) _ (outstanding id rest) k (s.base id)
                    (subst
                      (λ n. Counted (s.steady id) (lookup id s.provider.inflight_ips) n (s.base id))
                      own (b.counted id))
                    pk (b.int32 id) fits)
                (rw same at (split j)))
          | inr other ↦ rw other (
              subst (λ n. Counted (s.steady j) (lookup j s.provider.inflight_ips) n (s.base j))
                ((rw other at (split j)) ∙ zero_if false _) (b.counted j))
        ])

    pub returned-Counted :
        (now : ℕ) (before others : List LaunchSubnet) (l : LaunchSubnet) (j : String)
        → s.held ≡ before ++ l ∷ others
        → IsHeld l
        → A.get now l.id s.provider.available_ip_address_cache ≡ some (s.base l.id)
        → pos_part (s.base l.id) + pos_part l.reserved_ip_address_count
          < 2 ^ 31 + neg_part (s.base l.id)
        → Counted
            (s.steady j)
            (lookup j (release_inflight_ips C A now (some l) s.provider).1.inflight_ips)
            (outstanding j (before ++ others))
            (s.base j)
    unfolding release_inflight_ips
    returned-Counted now before others l j e h fresh fits =
        elim (Bool-cases (eqb_ℤ l.reserved_ip_address_count (pos 0))) [
          | inl free ↦
              rw (h.0, free)
                (subst (λ n. Counted (s.steady j) (lookup j s.provider.inflight_ips) n (s.base j))
                  (unreserved free) (b.counted j))
          | inr reserves ↦
              rw (h.0, reserves, nonneg_pos l.reserved_ip_address_count h.1)
                (released-Counted now l.id j (pos_part l.reserved_ip_address_count)
                  (before ++ others) split (ground arith) fresh fits)
        ]
      where
        split :
            (x : String)
            → outstanding x s.held
              ≡ (if l.id == x then pos_part l.reserved_ip_address_count else 0)
                + outstanding x (before ++ others)
        split x = rw e (outstanding-append x before others l)

        unreserved :
            eqb_ℤ l.reserved_ip_address_count (pos 0) ≡ true
            → outstanding j s.held ≡ outstanding j (before ++ others)
        unreserved free = ground (arith, split j)

    -- After a listing: what was in flight is forgotten for the subnets that are stored.
    pub listed-Counted :
        (terms : List SubnetSelectorTerm) (stored : List VpcSubnet) (o : Option ℤ) (id : String)
        → o ≡ (if found terms id stored then none else lookup id s.provider.inflight_ips)
        → Counted
            (if found terms id stored then eqb (outstanding id s.held) 0 else s.steady id)
            o
            (outstanding id s.held)
            (last_count terms id (s.base id) stored)
    listed-Counted terms stored o id e = elim (Bool-cases (found terms id stored)) [
      | inl f ↦ let gone : o ≡ none = rw f at e in rw (f, gone) (tt, λ h. ground (arith, h))
      | inr f ↦
          let kept : o ≡ lookup id s.provider.inflight_ips = rw f at e in
          rw (f, kept, last_count-not_found terms id (s.base id) stored f) (b.counted id)
    ]
