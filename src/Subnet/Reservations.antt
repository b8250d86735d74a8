-- ===== src/Subnet/Reservations.antt =====
-- The addresses in flight of pkg/providers/subnet/subnet.go: SelectForLaunch reserves them and
-- ReleaseInflightIPs gives them back. Subnet.Overlaps adds the listings that come between.
use karpenter_provider_huawe.Base.{
  ℕ, ◌+◌, ◌^◌, ◌≤◌, ◌≡◌, refl, ◌∙◌, ap, subst, ◌≢◌, inl, inr, String, true, plain, List, [], ◌∷◌,
  ◌++◌, Option, none, some, ◌==◌, if◌then◌else◌, ok, err, arith, All, Bool-cases,
}
use karpenter_provider_huawe.Base.Int.{ℤ, pos, ◌≤ℤ◌, pos_part, neg_part, eqb_ℤ, IsInt32}
use karpenter_provider_huawe.Base.Maps.{lookup}
use karpenter_provider_huawe.Apis.{CceNodeClass}
use karpenter_provider_huawe.Ext.GoCache.{GoCache}
use karpenter_provider_huawe.Ext.Scheduling.{Scheduling, InstanceType}
use karpenter_provider_huawe.Subnet.{
  VpcSubnet, LaunchSubnet, State, or_else, reserve, release_inflight_ips, select_for_launch,
  select_among,
}
use karpenter_provider_huawe.Subnet.Selection.{
  HasId-All, Selected, Named, select_for_launch-Outcome,
}
use karpenter_provider_huawe.Subnet.Accounts.{
  outstanding, Accounts, predicted_ips-nonneg, outstanding-append, IsHeld, nonneg_pos,
  reserve-Accounts, release-Accounts,
}

module _ (C : GoCache (List VpcSubnet)) (A : GoCache ℤ) (base : String → ℤ) where
  -- The provider with the launches under way.
  pub record System : Type 0 where
    pub provider : State C A
    pub held : List LaunchSubnet

  -- The addresses in flight agree with the launches under way, subnet by subnet.
  pub record IsBalanced (s : System) : Type 0 where
    pub holds : All IsHeld s.held
    pub accounts :
        (id : String)
        → Accounts (lookup id s.provider.inflight_ips) (outstanding id s.held) (base id)

  -- One call of SelectForLaunch or ReleaseInflightIPs, while the cached counts stay. A launch begins: its subnets are named, their counts are cached, and the counts with all
  -- reservations stay in the range of int32. Or one ends, in any order, and gives its addresses back.
  pub data Step (S : Scheduling) (s : System) : System → Type 0 where
    launched :
        (now : ℕ) (c : CceNodeClass) (its : List (InstanceType S)) (capacity_type : String)
        (l : LaunchSubnet)
        → Named c.status_subnets
        → All
            (λ n. A.get now n.id s.provider.available_ip_address_cache ≡ some (base n.id))
            c.status_subnets
        → (select_for_launch C A S now c its capacity_type s.provider).0 ≡ ok l
        → neg_part (base l.id) + outstanding l.id s.held + pos_part l.reserved_ip_address_count
          ≤ 2 ^ 31 + pos_part (base l.id)
        → Step S s (record {
          provider = (select_for_launch C A S now c its capacity_type s.provider).1;
          held = l ∷ s.held;
        })
    returned :
        (now : ℕ) (before after : List LaunchSubnet) (l : LaunchSubnet)
        → s.held ≡ before ++ l ∷ after
        → A.get now l.id s.provider.available_ip_address_cache ≡ some (base l.id)
        → Step S s (record {
          provider = (release_inflight_ips C A now (some l) s.provider).1;
          held = before ++ after;
        })

module _ (C : GoCache (List VpcSubnet)) (A : GoCache ℤ) (S : Scheduling) (base : String → ℤ)
    (int32 : (id : String) → IsInt32 (base id)) where
  -- What the selection gives of the launch that begins.
  pub record Begun (s : System C A base) (now : ℕ) (l : LaunchSubnet) (p : State C A) : Type 0 where
    pub begun : IsHeld l
    pub counted :
        l.available_ip_address_count ≡ or_else (lookup l.id s.provider.inflight_ips) (base l.id)
    pub reserved :
        p ≡ reserve C A l.id l.available_ip_address_count l.reserved_ip_address_count s.provider

  pub select_for_launch-ok_ne_nil :
      (now : ℕ) (c : CceNodeClass) (its : List (InstanceType S)) (capacity_type : String)
      (p : State C A) (l : LaunchSubnet)
      → (select_for_launch C A S now c its capacity_type p).0 ≡ ok l
      → c.status_subnets ≢ []
  unfolding select_for_launch select_among
  select_for_launch-ok_ne_nil now c its capacity_type p l e empty =
      let refused : err (plain "no subnets matched selector") ≡ ok l =
        rw (empty, select_among) at e in
      cc

  Selected-Begun :
      (s : System C A base) (now : ℕ) (c : CceNodeClass) (l : LaunchSubnet) (p : State C A)
      → All
          (λ n. A.get now n.id s.provider.available_ip_address_cache ≡ some (base n.id))
          c.status_subnets
      → p ≡ reserve C A l.id l.available_ip_address_count l.reserved_ip_address_count s.provider
      → pos 0 ≤ℤ l.reserved_ip_address_count
      → Selected A now s.provider.available_ip_address_cache s.provider.inflight_ips
          c.status_subnets l
      → Begun s now l p
  Selected-Begun s now c l p fresh e nonneg sel = record {
    begun = (sel.named, nonneg);
    counted =
        sel.counted
        ∙ ap (λ o. or_else (lookup l.id s.provider.inflight_ips) (or_else o (pos 0)))
            (HasId-All (λ id. A.get now id s.provider.available_ip_address_cache ≡ some (base id))
              l.id c.status_subnets fresh sel.listed);
    reserved = e;
  }

  pub launched-Begun :
      (s : System C A base) (now : ℕ) (c : CceNodeClass) (its : List (InstanceType S))
      (capacity_type : String) (l : LaunchSubnet)
      → Named c.status_subnets
      → All
          (λ n. A.get now n.id s.provider.available_ip_address_cache ≡ some (base n.id))
          c.status_subnets
      → (select_for_launch C A S now c its capacity_type s.provider).0 ≡ ok l
      → Begun s now l (select_for_launch C A S now c its capacity_type s.provider).1
  launched-Begun s now c its capacity_type l named fresh e =
      let (l', found, kept, predicted, sel) =
        select_for_launch-Outcome C A S now its capacity_type s.provider c named
          (select_for_launch-ok_ne_nil now c its capacity_type s.provider l e) in
      let same : l' ≡ l = cc (found, e) in
      subst (λ x. Begun s now x (select_for_launch C A S now c its capacity_type s.provider).1) same
        (Selected-Begun s now c l' _ fresh kept
          (rw predicted (predicted_ips-nonneg S capacity_type its)) sel)

  held_pos :
      (s : System C A base) (l : LaunchSubnet) (p : State C A) (j : String)
      → IsBalanced C A base s
      → neg_part (base l.id) + outstanding l.id s.held + pos_part l.reserved_ip_address_count
        ≤ 2 ^ 31 + pos_part (base l.id)
      → (now : ℕ) → Begun s now l p
      → Accounts (lookup j p.inflight_ips) (outstanding j (l ∷ s.held)) (base j)
  held_pos s l p j b fits now g =
      rw (g.reserved, nonneg_pos l.reserved_ip_address_count g.begun.1)
        (reserve-Accounts C A base s.provider s.held b.accounts l.id j l.available_ip_address_count
          (pos_part l.reserved_ip_address_count) (int32 l.id) g.counted fits)

  release-balance :
      (s : System C A base) (now : ℕ) (before after : List LaunchSubnet) (l : LaunchSubnet)
      (j : String)
      → IsBalanced C A base s
      → s.held ≡ before ++ l ∷ after
      → IsHeld l
      → A.get now l.id s.provider.available_ip_address_cache ≡ some (base l.id)
      → Accounts
          (lookup j (release_inflight_ips C A now (some l) s.provider).1.inflight_ips)
          (outstanding j (before ++ after))
          (base j)
  unfolding release_inflight_ips
  release-balance s now before after l j b e h fresh =
      elim (Bool-cases (eqb_ℤ l.reserved_ip_address_count (pos 0))) [
        | inl free ↦
            rw (h.0, free)
              (subst (λ n. Accounts (lookup j s.provider.inflight_ips) n (base j)) (unreserved free)
                (b.accounts j))
        | inr reserves ↦
            rw (h.0, reserves, nonneg_pos l.reserved_ip_address_count h.1)
              (release-Accounts C A base s.provider s.held b.accounts now l.id j
                (pos_part l.reserved_ip_address_count) (before ++ after) split (ground arith)
                (int32 l.id) fresh)
      ]
    where
      split :
          (x : String)
          → outstanding x s.held
            ≡ (if l.id == x then pos_part l.reserved_ip_address_count else 0)
              + outstanding x (before ++ after)
      split x = rw e (outstanding-append x before after l)

      unreserved :
          eqb_ℤ l.reserved_ip_address_count (pos 0) ≡ true
          → outstanding j s.held ≡ outstanding j (before ++ after)
      unreserved free = ground (arith, split j)

  pub All-append :
      (P : LaunchSubnet → Type 0) (before after : List LaunchSubnet) (l : LaunchSubnet)
      → All P (before ++ l ∷ after)
      → P l × All P (before ++ after)
  All-append P [] after l h = h
  All-append P (b ∷ before) after l h =
      let (held, rest) = All-append P before after l h.1 in (held, (h.0, rest))

  pub Step-IsBalanced :
      {s t : System C A base} → Step C A base S s t → IsBalanced C A base s → IsBalanced C A base t
  Step-IsBalanced {s} (launched now c its capacity_type l named fresh e fits) b =
      let g = launched-Begun s now c its capacity_type l named fresh e in
      record { holds = (g.begun, b.holds); accounts = λ j. held_pos s l _ j b fits now g }
  Step-IsBalanced {s} (returned now before after l e fresh) b =
      let (held, rest) = All-append IsHeld before after l (subst (All IsHeld) e b.holds) in
      record { holds = rest; accounts = λ j. release-balance s now before after l j b e held fresh }

  pub idle-IsBalanced :
      (p : State C A)
      → p.inflight_ips ≡ []
      → IsBalanced C A base (record { provider = p; held = [] })
  unfolding lookup
  idle-IsBalanced p e = record { holds = tt; accounts = λ id. rw (e, lookup) refl }

-- A second release of the same launch, whenever it comes, changes nothing.
pub release_inflight_ips_twice :
    (C : GoCache (List VpcSubnet)) (A : GoCache ℤ) (now later : ℕ) (l : Option LaunchSubnet)
    (p : State C A)
    → let once = release_inflight_ips C A now l p in
      release_inflight_ips C A later once.0 once.1 ≡ once
unfolding release_inflight_ips
release_inflight_ips_twice C A now later none p = refl
release_inflight_ips_twice C A now later (some l) p = elim (Bool-cases (l.id == "")) [
  | inl e ↦ rw (e, release_inflight_ips) (rw e)
  | inr e ↦ elim (Bool-cases (eqb_ℤ l.reserved_ip_address_count (pos 0))) [
    | inl free ↦ ground (arith, e, free)
    | inr held ↦ ground (arith, e, held)
  ]
]
