-- ===== src/Subnet/Selection.antt =====
-- SelectForLaunch of pkg/providers/subnet/subnet.go: which subnet it selects.
use karpenter_provider_huawe.Base.{
  ℕ, ◌≡◌, refl, sym, ◌∙◌, ap, ◌⊎◌, ◌≢◌, subst, inl, inr, String, false, List, [], ◌∷◌, Option, none,
  some, ◌==◌, Result, ok, All, arith, eq_iff, Bool-cases, All-map, All-zip, eq_refl,
}
use karpenter_provider_huawe.Base.Int.{ℤ, pos, negsuc, ◌≤ℤ◌, ltb_ℤ}
use karpenter_provider_huawe.Base.Maps.{Map, lookup, lookup-insert}
use karpenter_provider_huawe.Apis
use karpenter_provider_huawe.Apis.{CceNodeClass}
use karpenter_provider_huawe.Ext.GoCache.{GoCache}
use karpenter_provider_huawe.Ext.Scheduling.{Scheduling, InstanceType}
use karpenter_provider_huawe.Subnet.{
  VpcSubnet, LaunchSubnet, State, or_else, record_count, ip_count, select_best, available_counts,
  select_for_launch, select_among, launch, reserve, predicted_ips,
}

-- The subnet ids of a node class are not empty.
abbrev pub Named : List Apis.Subnet → Type 0
Named ns = All (λ n. (n.id == "") ≡ false) ns

-- `id` is the id of one of the subnets.
abbrev pub HasId : String → List Apis.Subnet → Type 0
HasId id [] = ⊥
HasId id (n ∷ ns) = (n.id ≡ id) ⊎ HasId id ns

pub HasId-All :
    (P : String → Type 0) (id : String) (ns : List Apis.Subnet)
    → All (λ n. P n.id) ns
    → HasId id ns
    → P id
HasId-All P id [] h m = absurd m
HasId-All P id (n ∷ ns) h (inl e) = rw e at h.0
HasId-All P id (n ∷ ns) h (inr m) = HasId-All P id ns h.1 m

-- What the loop over `ns` makes of the selection (id, most), which is that of a named subnet.
record Best (count_of : String → ℤ) (ns : List Apis.Subnet) (id : String) (most : ℤ)
    (r : String × ℤ) : Type 0 where
  named : (r.0 == "") ≡ false
  grows : most ≤ℤ r.1
  largest : All (λ n. count_of n.id ≤ℤ r.1) ns
  chosen : ((r.0 ≡ id) × (r.1 ≡ most)) ⊎ (HasId r.0 ns × (r.1 ≡ count_of r.0))

Best-more :
    (count_of : String → ℤ) (n : Apis.Subnet) (ns : List Apis.Subnet) (id : String) (most : ℤ)
    (r : String × ℤ)
    → most ≤ℤ count_of n.id
    → Best count_of ns n.id (count_of n.id) r
    → Best count_of (n ∷ ns) id most r
Best-more count_of n ns id most r h b = record {
  named = b.named;
  grows = omega (arith, b.grows);
  largest = (b.grows, b.largest);
  chosen = elim b.chosen [
    | inl (e, c) ↦ inr (inl (sym e), c ∙ ap count_of (sym e))
    | inr (m, c) ↦ inr (inr m, c)
  ];
}

Best-less :
    (count_of : String → ℤ) (n : Apis.Subnet) (ns : List Apis.Subnet) (id : String) (most : ℤ)
    (r : String × ℤ)
    → count_of n.id ≤ℤ most
    → Best count_of ns id most r
    → Best count_of (n ∷ ns) id most r
Best-less count_of n ns id most r h b = record {
  named = b.named;
  grows = b.grows;
  largest = (omega (arith, b.grows), b.largest);
  chosen = elim b.chosen [ inl e ↦ inl e | inr (m, c) ↦ inr (inr m, c) ];
}

module _ (available inflight : Map ℤ) where
  select_best-Best :
      (ns : List Apis.Subnet) (id : String) (most : ℤ)
      → Named ns
      → (id == "") ≡ false
      → Best (ip_count available inflight) ns id most (select_best available inflight ns (id, most))
  unfolding select_best
  select_best-Best [] id most named h = record {
    named = h;
    grows = omega arith;
    largest = tt;
    chosen = inl (refl, refl);
  }
  select_best-Best (n ∷ ns) id most named h =
      elim (Bool-cases (ltb_ℤ most (ip_count available inflight n.id))) [
        | inl more ↦
            rw (h, more)
              (Best-more (ip_count available inflight) n ns id most _ (ground arith)
                (select_best-Best ns n.id _ named.1 named.0))
        | inr less ↦
            rw (h, less)
              (Best-less (ip_count available inflight) n ns id most _ (ground arith)
                (select_best-Best ns id most named.1 h))
      ]

  -- From the start, where the first subnet is taken.
  select_best_start :
      (n : Apis.Subnet) (ns : List Apis.Subnet)
      → Named (n ∷ ns)
      → let r = select_best available inflight (n ∷ ns) ("", negsuc 0) in
        Best (ip_count available inflight) (n ∷ ns) n.id (ip_count available inflight n.id) r
  unfolding select_best
  select_best_start n ns named =
      Best-more (ip_count available inflight) n ns n.id _ _ (omega arith)
        (select_best-Best ns n.id _ named.1 named.0)

-- Counts that hold for each key nothing, or what `g` has.
module _ (g : String → Option ℤ) where
  abbrev Consistent : Map ℤ → Type 0
  Consistent counts = (j : String) → (lookup j counts ≡ none) ⊎ (lookup j counts ≡ g j)

  record_count-keeps :
      (id j : String) (o : Option ℤ) (counts : Map ℤ)
      → o ≡ g id
      → lookup j counts ≡ g j
      → lookup j (record_count id o counts) ≡ g j
  unfolding record_count
  record_count-keeps id j none counts e h = h
  record_count-keeps id j (some v) counts e h =
      rw (lookup-insert id j v counts) (elim (Bool-cases (id == j)) [
        | inl same ↦ rw same (e ∙ ap g ((eq_iff id j).0 same))
        | inr other ↦ rw other h
      ])

  record_count-Consistent :
      (id : String) (o : Option ℤ) (counts : Map ℤ)
      → o ≡ g id
      → Consistent counts
      → Consistent (record_count id o counts)
  unfolding record_count
  record_count-Consistent id none counts e h j = h j
  record_count-Consistent id (some v) counts e h j =
      rw (lookup-insert id j v counts) (elim (Bool-cases (id == j)) [
        | inl same ↦ rw same (inr (e ∙ ap g ((eq_iff id j).0 same)))
        | inr other ↦ rw other (h j)
      ])

  record_count_self :
      (id : String) (o : Option ℤ) (counts : Map ℤ)
      → o ≡ g id
      → Consistent counts
      → lookup id (record_count id o counts) ≡ g id
  unfolding record_count
  record_count_self id none counts e h = elim (h id) [ inl n ↦ n ∙ e | inr same ↦ same ]
  record_count_self id (some v) counts e h = rw (lookup-insert id id v counts, eq_refl id) e

module _ (A : GoCache ℤ) (now : ℕ) (s : A.Store) where
  abbrev cached : String → Option ℤ
  cached j = A.get now j s

  available_counts-keeps :
      (ns : List Apis.Subnet) (counts : Map ℤ) (j : String)
      → lookup j counts ≡ cached j
      → lookup j (available_counts A now s ns counts) ≡ cached j
  unfolding available_counts
  available_counts-keeps [] counts j h = h
  available_counts-keeps (n ∷ ns) counts j h =
      available_counts-keeps ns _ j (record_count-keeps cached n.id j _ counts refl h)

  available_counts-lookup :
      (ns : List Apis.Subnet) (counts : Map ℤ)
      → Consistent cached counts
      → All (λ n. lookup n.id (available_counts A now s ns counts) ≡ cached n.id) ns
  unfolding available_counts
  available_counts-lookup [] counts h = tt
  available_counts-lookup (n ∷ ns) counts h = (
    available_counts-keeps ns _ n.id (record_count_self cached n.id _ counts refl h),
    available_counts-lookup ns _ (record_count-Consistent cached n.id _ counts refl h),
  )

  -- The addresses that the provider takes a subnet to have left.
  abbrev pub tracked : Map ℤ → String → ℤ
  tracked inflight id = or_else (lookup id inflight) (or_else (A.get now id s) (pos 0))

  ip_count-tracked :
      (ns : List Apis.Subnet) (inflight : Map ℤ)
      → All
          (λ n. ip_count (available_counts A now s ns []) inflight n.id ≡ tracked inflight n.id)
          ns
  unfolding ip_count lookup
  ip_count-tracked ns inflight =
      All-map _ _ (λ n e. ap (λ o. or_else (lookup n.id inflight) (or_else o (pos 0))) e) ns
        (available_counts-lookup ns [] (λ j. inl refl))

-- What a selection says of the subnets of the node class.
pub record Selected (A : GoCache ℤ) (now : ℕ) (s : A.Store) (inflight : Map ℤ)
    (ns : List Apis.Subnet) (l : LaunchSubnet) : Type 0 where
  pub listed : HasId l.id ns
  pub named : (l.id == "") ≡ false
  pub counted : l.available_ip_address_count ≡ tracked A now s inflight l.id
  pub largest : All (λ n. tracked A now s inflight n.id ≤ℤ l.available_ip_address_count) ns

module _ (A : GoCache ℤ) (now : ℕ) (s : A.Store) (inflight : Map ℤ) where
  abbrev counts : List Apis.Subnet → String → ℤ
  counts ns = ip_count (available_counts A now s ns []) inflight

  Best-chosen :
      (ns : List Apis.Subnet) (n : Apis.Subnet) (r : String × ℤ)
      → Best (counts ns) ns n.id (counts ns n.id) r
      → HasId n.id ns
      → HasId r.0 ns × (r.1 ≡ counts ns r.0)
  Best-chosen ns n r b m = elim b.chosen [
    | inl (e, c) ↦ (subst (λ id. HasId id ns) (sym e) m, c ∙ ap (counts ns) (sym e))
    | inr h ↦ h
  ]

  Best-Selected :
      (ns : List Apis.Subnet) (n : Apis.Subnet) (l : LaunchSubnet)
      → Best (counts ns) ns n.id (counts ns n.id) (l.id, l.available_ip_address_count)
      → HasId n.id ns
      → Selected A now s inflight ns l
  Best-Selected ns n l b m = record {
    listed = (Best-chosen ns n _ b m).0;
    named = b.named;
    counted =
        (Best-chosen ns n _ b m).1
        ∙ HasId-All (λ id. counts ns id ≡ tracked A now s inflight id) l.id ns
            (ip_count-tracked A now s ns inflight) (Best-chosen ns n _ b m).0;
    largest =
        All-zip _ _ _ (λ k e le. subst (λ z. z ≤ℤ l.available_ip_address_count) e le) ns
          (ip_count-tracked A now s ns inflight) b.largest;
  }

module _ (C : GoCache (List VpcSubnet)) (A : GoCache ℤ) (S : Scheduling) (now : ℕ)
    (its : List (InstanceType S)) (capacity_type : String) (p : State C A) where
  -- The outcome of a selection among `ns`.
  abbrev pub Outcome : List Apis.Subnet → Result LaunchSubnet × State C A → Type 0
  Outcome ns r =
      (l : LaunchSubnet) × (r.0 ≡ ok l)
      × (r.1 ≡ reserve C A l.id l.available_ip_address_count l.reserved_ip_address_count p)
      × (l.reserved_ip_address_count ≡ predicted_ips S capacity_type its)
      × Selected A now p.available_ip_address_cache p.inflight_ips ns l

  launch-Outcome :
      (n : Apis.Subnet) (ns : List Apis.Subnet) (r : String × ℤ)
      → HasId n.id (n ∷ ns)
      → Best
          (counts A now p.available_ip_address_cache p.inflight_ips (n ∷ ns))
          (n ∷ ns)
          n.id
          (counts A now p.available_ip_address_cache p.inflight_ips (n ∷ ns) n.id)
          r
      → Outcome (n ∷ ns) (launch C A r (predicted_ips S capacity_type its) p)
  unfolding launch
  launch-Outcome n ns (id, most) m b = (
    record {
      id = id;
      available_ip_address_count = most;
      reserved_ip_address_count = predicted_ips S capacity_type its;
    },
    rw b.named,
    rw b.named,
    refl,
    Best-Selected A now p.available_ip_address_cache p.inflight_ips (n ∷ ns) n _ b m,
  )

  pub select_among-Outcome :
      (ns : List Apis.Subnet)
      → Named ns
      → ns ≢ []
      → Outcome ns (select_among C A S now ns its capacity_type p)
  unfolding select_among
  select_among-Outcome [] named h = absurd (h refl)
  select_among-Outcome (n ∷ ns) named h =
      launch-Outcome n ns _ (inl refl) (select_best_start _ p.inflight_ips n ns named)

  -- A launch for a node class with subnets, all named, gets one of them that has the most addresses
  -- left, with the predicted addresses reserved on it. The reservation is all that changes.
  pub select_for_launch-Outcome :
      (c : CceNodeClass)
      → Named c.status_subnets
      → c.status_subnets ≢ []
      → Outcome c.status_subnets (select_for_launch C A S now c its capacity_type p)
  unfolding select_for_launch
  select_for_launch-Outcome c = select_among-Outcome c.status_subnets
