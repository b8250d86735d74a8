-- ===== src/Subnet/Overlaps.antt =====
-- What pkg/providers/subnet/subnet.go tracks while launches and listings overlap: SelectForLaunch
-- reserves addresses, ReleaseInflightIPs gives them back, and List forgets those in flight of the
-- subnets that it finds and caches their counts anew.
use karpenter_provider_huawe.Base.{
  ℕ, ◌+◌, ◌^◌, ◌≤◌, ◌≡◌, refl, subst, String, true, List, [], ◌∷◌, Option, none, some, arith, All,
}
use karpenter_provider_huawe.Base.Int.{ℤ, pos_part, neg_part, IsInt32}
use karpenter_provider_huawe.Base.Maps.{lookup}
use karpenter_provider_huawe.Ext.GoCache.{GoCache}
use karpenter_provider_huawe.Ext.Scheduling.{Scheduling}
use karpenter_provider_huawe.Subnet.{VpcSubnet, LaunchSubnet, State}
use karpenter_provider_huawe.Subnet.Listing.{fetched, list-inflight}
use karpenter_provider_huawe.Subnet.Accounts.{outstanding, IsHeld, nonneg_pos}
use karpenter_provider_huawe.Subnet.Reservations.{Begun, launched-Begun, All-append}
use karpenter_provider_huawe.Subnet.Counted.{Within, Counted, last_count-IsInt32}
use karpenter_provider_huawe.Subnet.Fleet.{
  Fleet, IsCounted, Move, launched, returned, listed, Reach, here, next, reserved-Counted,
  returned-Counted, listed-Counted,
}

module _ (C : GoCache (List VpcSubnet)) (A : GoCache ℤ) where
  launched-Counted :
      (S : Scheduling) (s : Fleet C A) (now : ℕ) (l : LaunchSubnet) (p : State C A) (j : String)
      → (b : IsCounted C A s)
      → Begun C A S s.base b.int32 (record { provider = s.provider; held = s.held }) now l p
      → neg_part (s.base l.id) + outstanding l.id s.held + pos_part l.reserved_ip_address_count
        ≤ 2 ^ 31 + pos_part (s.base l.id)
      → Counted (s.steady j) (lookup j p.inflight_ips) (outstanding j (l ∷ s.held)) (s.base j)
  launched-Counted S s now l p j b g fits =
      rw (g.reserved, nonneg_pos l.reserved_ip_address_count g.begun.1)
        (reserved-Counted C A S s b l.id j l.available_ip_address_count
          (pos_part l.reserved_ip_address_count) g.counted fits)

  Move-IsCounted :
      (S : Scheduling) {s t : Fleet C A} → Move C A S s t → IsCounted C A s → IsCounted C A t
  Move-IsCounted S {s} (launched now c its capacity_type l named fresh e fits) b =
      let g =
        launched-Begun C A S s.base b.int32 (record { provider = s.provider; held = s.held }) now c
          its capacity_type l named fresh e in
      record {
        holds = (g.begun, b.holds);
        int32 = b.int32;
        counted = λ j. launched-Counted S s now l _ j b g fits;
      }
  Move-IsCounted S {s} (returned now before others l e fresh fits) b =
      let (held, rest) =
        All-append C A S s.base b.int32 IsHeld before others l (subst (All IsHeld) e b.holds) in
      record {
        holds = rest;
        int32 = b.int32;
        counted = λ j. returned-Counted C A S s b now before others l j e held fresh fits;
      }
  Move-IsCounted S {s} (listed now c answer fits) b =
      let stored = fetched C A now c answer s.provider in
      record {
        holds = b.holds;
        int32 = λ id.
            last_count-IsInt32 c.spec.subnet_selector_terms id (s.base id) stored (b.int32 id) fits;
        counted = λ id.
            listed-Counted C A S s b c.spec.subnet_selector_terms stored _ id
              (list-inflight C A now c id answer s.provider);
      }

  -- Whatever launches and listings overlap, and in whatever order launches end: the count in flight
  -- of a subnet, if there is one, is below the cached count, and by no more than the launches still
  -- under way have reserved; and if no listing has found the subnet, or the last one that did came
  -- while no launch on it was under way, it is the cached count less just these reservations, and
  -- there is one exactly while some address is reserved. The counts are cached when launches begin and end, and the counts with
  -- the reservations taken off or given back stay in the range of int32.
  pub Reach-IsCounted :
      (S : Scheduling) {s t : Fleet C A} → IsCounted C A s → Reach C A S s t → IsCounted C A t
  Reach-IsCounted S b here = b
  Reach-IsCounted S b (next r m) = Move-IsCounted S m (Reach-IsCounted S b r)

  pub idle-IsCounted :
      (p : State C A) (base : String → ℤ)
      → p.inflight_ips ≡ []
      → ((id : String) → IsInt32 (base id))
      → IsCounted C A (record { provider = p; held = []; base = base; steady = λ id. true })
  unfolding lookup
  idle-IsCounted p base e int32 = record {
    holds = tt;
    int32 = int32;
    counted = λ id. rw (e, lookup) (tt, λ h. refl);
  }

  -- Once all launches have ended, no address of any subnet is in flight, whatever listings there
  -- were.
  pub Reach-idle :
      (S : Scheduling) (s t : Fleet C A) (id : String)
      → IsCounted C A s
      → Reach C A S s t
      → t.held ≡ []
      → lookup id t.provider.inflight_ips ≡ none
  Reach-idle S s t id b r done =
      untracked _ (lookup id t.provider.inflight_ips)
        (rw done at ((Reach-IsCounted S b r).counted id).0)
    where
      untracked : (base_id : ℤ) (o : Option ℤ) → Within o 0 base_id → o ≡ none
      untracked base_id none h = refl
      untracked base_id (some v) h = absurd (omega (arith, h.0, h.1))
