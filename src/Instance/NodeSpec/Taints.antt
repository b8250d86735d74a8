-- ===== src/Instance/NodeSpec/Taints.antt =====
-- The taints that toCCETaints of pkg/providers/instance/instance.go sends.
use karpenter_provider_huawe.Base.{
  ◌≡◌, ◌∙◌, refl, String, ◌+str◌, ◌⊎◌, ◌≢◌, subst, ◌&&◌, map, eq_iff, arith, Bool, true, false,
  List, [], ◌∷◌, ◌++◌, Option, none, some, ◌==◌, if◌then◌else◌, reject, All, Bool-cases, inl, inr,
}
use karpenter_provider_huawe.Base.Membership.{All-append}
use karpenter_provider_huawe.Base.Maps.{Map, lookup, insert, lookup-insert}
use karpenter_provider_huawe.Instance.NodeSpec.{
  Taint, CceTaint, no_schedule, prefer_no_schedule, no_execute, to_cce_taint, or_nil, to_cce_taints,
  unregistered_no_execute_taint, network_unavailable_taint, match_taint, taint_key, dedupe,
  claim_taints,
}

-- A taint as it is put in: the unregistered one always as Karpenter defines it.
abbrev put_in : Taint → Taint
put_in t =
    if (t.key +str "/" +str t.effect) == "karpenter.sh/unregistered/NoExecute"
    then record { key = "karpenter.sh/unregistered"; value = ""; effect = "NoExecute" }
    else t

abbrev or_put : Option Taint → Option Taint → Option Taint
or_put none o = o
or_put (some t) o = some t

-- The taint that CCE manages itself.
abbrev pub is_network_unavailable : Taint → Bool
is_network_unavailable t =
    (t.key == "node.kubernetes.io/network-unavailable") && (t.effect == "NoSchedule")

-- The last taint whose key and effect, with a slash between them, are the text `k`; a taint that CCE
-- manages itself does not count.
abbrev pub last_with : String → List Taint → Option Taint
last_with k [] = none
last_with k (t ∷ ts) = or_put (last_with k ts) (
    if is_network_unavailable t
    then none
    else if (t.key +str "/" +str t.effect) == k
    then some (put_in t)
    else none)

or_put-none : (o : Option Taint) → or_put o none ≡ o
or_put-none none = refl
or_put-none (some t) = refl

dedupe-lookup :
    (k : String) (ts : List Taint) (m : Map Taint)
    → lookup k (dedupe (reject (λ t. match_taint t network_unavailable_taint) ts) m)
      ≡ or_put (last_with k ts) (lookup k m)
unfolding dedupe
dedupe-lookup k [] m = refl
dedupe-lookup k (t ∷ ts) m = elim (Bool-cases (is_network_unavailable t)) [
  | inl e ↦ rw (e, or_put-none (last_with k ts)) (dedupe-lookup k ts m)
  | inr e ↦
      rw
        (
          e,
          dedupe-lookup k ts (insert (taint_key t) (put_in t) m),
          lookup-insert (taint_key t) k (put_in t) m,
        )
        (split (last_with k ts) (taint_key t == k))
]
  where
    split :
        (o : Option Taint) (b : Bool)
        → or_put o (if b then some (put_in t) else lookup k m)
          ≡ or_put (or_put o (if b then some (put_in t) else none)) (lookup k m)
    split none true = refl
    split none false = refl
    split (some u) b = refl

-- An effect that Kubernetes has for a taint of a node.
abbrev pub HasEffect : Taint → Type 0
HasEffect t = (t.effect ≡ "NoSchedule") ⊎ (t.effect ≡ "PreferNoSchedule") ⊎ (t.effect ≡ "NoExecute")

-- A taint that CCE accepts.
abbrev pub IsAccepted : CceTaint → Type 0
IsAccepted t = t.key ≡ "node.kubernetes.io/network-unavailable" → t.effect ≢ no_schedule

insert-All :
    (P : Taint → Type 0) (k : String) (t : Taint) (m : Map Taint)
    → P t
    → All (λ e. P e.1) m
    → All (λ e. P e.1) (insert k t m)
unfolding insert
insert-All P k t [] p h = (p, tt)
insert-All P k t ((j, u) ∷ m) p h = elim (Bool-cases (j == k)) [
  | inl e ↦ rw e (p, h.1)
  | inr e ↦ rw e (h.0, insert-All P k t m p h.1)
]

-- No key stands twice.
abbrev pub HasOneEach : Map Taint → Type 0
HasOneEach [] = Unit
HasOneEach ((k, t) ∷ m) = (lookup k m ≡ none) × HasOneEach m

insert-HasOneEach :
    (k : String) (t : Taint) (m : Map Taint) → HasOneEach m → HasOneEach (insert k t m)
unfolding insert lookup
insert-HasOneEach k t [] h = (refl, tt)
insert-HasOneEach k t ((j, u) ∷ m) h = elim (Bool-cases (j == k)) [
  | inl e ↦ rw e (subst (λ x. lookup x m ≡ none) ((eq_iff j k).0 e) h.0, h.1)
  | inr e ↦ rw e (
    lookup-insert k j t m ∙ ground (arith, e, h.0, eq_iff j k, eq_iff k j),
    insert-HasOneEach k t m h.1,
  )
]

dedupe-HasOneEach : (ts : List Taint) (m : Map Taint) → HasOneEach m → HasOneEach (dedupe ts m)
unfolding dedupe
dedupe-HasOneEach [] m h = h
dedupe-HasOneEach (t ∷ ts) m h =
    dedupe-HasOneEach ts _ (insert-HasOneEach (taint_key t) (put_in t) m h)

abbrev AcceptedAs : Taint → Type 0
AcceptedAs t = IsAccepted (to_cce_taint t)

to_cce_taint-IsAccepted :
    (t : Taint) → match_taint t network_unavailable_taint ≡ false → HasEffect t → AcceptedAs t
unfolding to_cce_taint
to_cce_taint-IsAccepted t h (inl e) key same =
    let impossible : ⊥ = ground (
      arith,
      h,
      (eq_iff t.key "node.kubernetes.io/network-unavailable").1 key,
      (eq_iff t.effect "NoSchedule").1 e,
    ) in
    impossible
to_cce_taint-IsAccepted t h (inr (inl e)) key same =
    let prefers : prefer_no_schedule ≡ no_schedule = rw e at same in cc
to_cce_taint-IsAccepted t h (inr (inr e)) key same =
    let executes : no_execute ≡ no_schedule = rw e at same in cc

unregistered-AcceptedAs : AcceptedAs unregistered_no_execute_taint
unfolding to_cce_taint
unregistered-AcceptedAs key same = cc

put_in-AcceptedAs : (t : Taint) → AcceptedAs t → AcceptedAs (put_in t)
put_in-AcceptedAs t h = elim (Bool-cases (taint_key t == "karpenter.sh/unregistered/NoExecute")) [
  | inl e ↦ rw e unregistered-AcceptedAs
  | inr e ↦ rw e h
]

dedupe-AcceptedAs :
    (ts : List Taint) (m : Map Taint)
    → All AcceptedAs ts
    → All (λ e. AcceptedAs e.1) m
    → All (λ e. AcceptedAs e.1) (dedupe ts m)
unfolding dedupe
dedupe-AcceptedAs [] m h k = k
dedupe-AcceptedAs (t ∷ ts) m h k =
    dedupe-AcceptedAs ts _ h.1
      (insert-All AcceptedAs (taint_key t) (put_in t) m (put_in-AcceptedAs t h.0) k)

rejected-AcceptedAs :
    (ts : List Taint)
    → All HasEffect ts
    → All AcceptedAs (reject (λ t. match_taint t network_unavailable_taint) ts)
rejected-AcceptedAs [] h = tt
rejected-AcceptedAs (t ∷ ts) h = elim (Bool-cases (match_taint t network_unavailable_taint)) [
  | inl e ↦ rw e (rejected-AcceptedAs ts h.1)
  | inr e ↦ rw e (to_cce_taint-IsAccepted t e h.0, rejected-AcceptedAs ts h.1)
]

-- The entries of a map as they are sent.
abbrev pub sent : Map Taint → List CceTaint
sent = map (λ e. to_cce_taint e.1)

sent-IsAccepted : (m : Map Taint) → All (λ e. AcceptedAs e.1) m → All IsAccepted (sent m)
sent-IsAccepted [] h = tt
sent-IsAccepted (e ∷ m) h = (h.0, sent-IsAccepted m h.1)

-- What is sent with CreateNode, `none` being no list of taints at all.
abbrev pub taints_or_nil : Option (List CceTaint) → List CceTaint
taints_or_nil none = []
taints_or_nil (some ts) = ts

taints_or_nil-or_nil : (ts : List CceTaint) → taints_or_nil (or_nil ts) ≡ ts
taints_or_nil-or_nil [] = refl
taints_or_nil-or_nil (t ∷ ts) = refl

-- For a claim each of whose taints has one of the three effects of Kubernetes: the taints that are
-- sent are the translations of a map's entries, one for each key and effect. For every key and effect
-- it has the last taint with them among the unregistered taint, the startup taints and the taints of
-- the claim (the unregistered one always as Karpenter defines it), the network-unavailable taint that
-- CCE manages left out; and none that is sent is the network-unavailable taint with NoSchedule.
pub to_cce_taints-sent :
    (startup taints : List Taint)
    → All HasEffect startup
    → All HasEffect taints
    → (entries : Map Taint) × (taints_or_nil (to_cce_taints startup taints) ≡ sent entries)
      × HasOneEach entries
      × ((k : String)
          → lookup k entries
            ≡ last_with k (
                record { key = "karpenter.sh/unregistered"; value = ""; effect = "NoExecute" }
                  ∷ startup
                ++ taints))
      × All IsAccepted (sent entries)
unfolding to_cce_taints claim_taints lookup
to_cce_taints-sent startup taints h k =
    let all = unregistered_no_execute_taint ∷ startup ++ taints in
    (
      dedupe (claim_taints startup taints) [],
      taints_or_nil-or_nil _,
      dedupe-HasOneEach (claim_taints startup taints) [] tt,
      λ key. dedupe-lookup key all [] ∙ or_put-none _,
      sent-IsAccepted _ (
          dedupe-AcceptedAs (claim_taints startup taints) []
            (rejected-AcceptedAs all (inr (inr refl), All-append HasEffect startup taints h k)) tt),
    )
