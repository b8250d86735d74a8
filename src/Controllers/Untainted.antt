-- ===== src/Controllers/Untainted.antt =====
-- What the reconciliations of pkg/controllers/nodeclaim/unregisteredtaint/controller.go come to.
use karpenter_provider_huawe.Base.{
  ◌≤◌, ◌<◌, ◌≡◌, refl, ◌∙◌, ap, Bool, true, false, List, [], ◌∷◌, ◌++◌, Option, none, some, sym,
  ◌==◌, ◌&&◌, String, if◌then◌else◌, find, is_set, reject, length, Error, Bool-cases, inl, inr,
  arith,
}
use karpenter_provider_huawe.Base.Maps.{lookup}
use karpenter_provider_huawe.Instance.NodeSpec.{Taint}
use karpenter_provider_huawe.Controllers.UnregisteredTaint.{
  Node, is_true, is_stale_taint, is_karpenter_registered_with_stale_taint, same_taints,
  without_stale_taint, reconcile, reconciled,
}

same_taints-length : (ts us : List Taint) → same_taints ts us ≡ true → length ts ≡ length us
unfolding same_taints
same_taints-length [] [] h = refl
same_taints-length [] (u ∷ us) h = cc
same_taints-length (t ∷ ts) [] h = cc
same_taints-length (t ∷ ts) (u ∷ us) h = elim (Bool-cases (same_taints ts us)) [
  | inl e ↦ omega (arith, same_taints-length ts us e)
  | inr e ↦ ground (arith, e, h)
]

length-reject-le : {A : Type 0} (p : A → Bool) (xs : List A) → length (reject p xs) ≤ length xs
length-reject-le p [] = omega arith
length-reject-le p (x ∷ xs) = ground (arith, length-reject-le p xs)

length-reject-lt :
    {A : Type 0} (p : A → Bool) (xs : List A)
    → is_set (find p xs) ≡ true
    → length (reject p xs) < length xs
length-reject-lt p [] h = ground (arith, h)
length-reject-lt p (x ∷ xs) h = elim (Bool-cases (p x)) [
  | inl e ↦ rw e (omega (arith, length-reject-le p xs))
  | inr e ↦ rw e (omega (arith, length-reject-lt p xs (rw e at h)))
]

find-reject : {A : Type 0} (p : A → Bool) (xs : List A) → find p (reject p xs) ≡ none
find-reject p [] = refl
find-reject p (x ∷ xs) = elim (Bool-cases (p x)) [
  | inl e ↦ rw e (find-reject p xs)
  | inr e ↦ rw (e, e) (find-reject p xs)
]

abbrev stale : Node → Bool
stale = is_karpenter_registered_with_stale_taint

stale-changes :
    (node : Node)
    → stale node ≡ true
    → same_taints node.taints (without_stale_taint node).taints ≡ false
unfolding is_karpenter_registered_with_stale_taint
stale-changes node h =
    elim (Bool-cases (same_taints node.taints (without_stale_taint node).taints)) [
      | inl same ↦
          let impossible : ⊥ = omega (
            arith,
            same_taints-length _ _ same,
            length-reject-lt is_stale_taint node.taints (ground (arith, h)),
          ) in
          absurd impossible
      | inr other ↦ other
    ]

stale-without : (node : Node) → stale (without_stale_taint node) ≡ false
unfolding is_karpenter_registered_with_stale_taint
stale-without node = rw (find-reject is_stale_taint node.taints) (ground arith)

reconcile-refused : (e : Error) (node : Node) → (reconcile (some e) node).1 ≡ node
unfolding reconcile
reconcile-refused e node = elim (Bool-cases (stale node)) [
  | inl h ↦ rw (h, stale-changes node h) refl
  | inr h ↦ rw h refl
]

-- The node after an accepted patch, as the code has it.
abbrev patched_node : Node → Node
patched_node node =
    if is_karpenter_registered_with_stale_taint node then without_stale_taint node else node

-- The taints but those with the key karpenter.sh/unregistered and the effect NoExecute.
abbrev pub without_unregistered : List Taint → List Taint
without_unregistered [] = []
without_unregistered (t ∷ ts) =
    let rest = without_unregistered ts in
    if (t.key == "karpenter.sh/unregistered") && (t.effect == "NoExecute") then rest else t ∷ rest

-- Whether a label is there and says "true".
abbrev pub says_true : Option String → Bool
says_true none = false
says_true (some v) = v == "true"

-- The node that is wanted: if its label karpenter.sh/registered says "true", it has all but those
-- taints, and it is as it was otherwise.
abbrev pub cleaned : Node → Node
cleaned node =
    if says_true (lookup "karpenter.sh/registered" node.labels)
    then record node { taints = without_unregistered node.taints }
    else node

reject-without_unregistered : (ts : List Taint) → reject is_stale_taint ts ≡ without_unregistered ts
reject-without_unregistered [] = refl
reject-without_unregistered (t ∷ ts) = ground (arith, reject-without_unregistered ts)

reject-not_found :
    (ts : List Taint) → is_set (find is_stale_taint ts) ≡ false → reject is_stale_taint ts ≡ ts
reject-not_found [] h = refl
reject-not_found (t ∷ ts) h = elim (Bool-cases (is_stale_taint t)) [
  | inl e ↦ ground (arith, e, h)
  | inr e ↦ rw e (ap (λ us. t ∷ us) (reject-not_found ts (rw e at h)))
]

registered_or_not :
    (label : Option String) (node : Node)
    → (if is_true label && is_set (find is_stale_taint node.taints)
        then without_stale_taint node
        else node)
      ≡ (if says_true label
          then record node { taints = without_unregistered node.taints }
          else node)
registered_or_not none node = refl
registered_or_not (some v) node = elim (Bool-cases (v == "true")) [
  | inr other ↦ rw other refl
  | inl said ↦ rw said (elim (Bool-cases (is_set (find is_stale_taint node.taints))) [
    | inl found ↦
        rw found (ap (λ ts. record node { taints = ts }) (reject-without_unregistered node.taints))
    | inr clean ↦ rw clean (
        ap (λ ts. record node { taints = ts })
          (sym (reject-not_found node.taints clean) ∙ reject-without_unregistered node.taints))
  ])
]

patched_node-cleaned : (node : Node) → patched_node node ≡ cleaned node
unfolding is_karpenter_registered_with_stale_taint
patched_node-cleaned node = registered_or_not (lookup "karpenter.sh/registered" node.labels) node

reconcile-patched_node : (node : Node) → (reconcile none node).1 ≡ patched_node node
unfolding reconcile
reconcile-patched_node node = elim (Bool-cases (stale node)) [
  | inl h ↦ rw (h, stale-changes node h) refl
  | inr h ↦ rw h refl
]

patched_node-settled : (node : Node) → stale (patched_node node) ≡ false
patched_node-settled node = elim (Bool-cases (stale node)) [
  | inl h ↦ rw h (stale-without node)
  | inr h ↦ rw (h, h) refl
]

reconcile-settled :
    (answer : Option Error) (node : Node) → stale node ≡ false → (reconcile answer node).1 ≡ node
unfolding reconcile
reconcile-settled answer node h = rw h refl

reconciled-settled :
    (answers : List (Option Error)) (node : Node)
    → stale node ≡ false
    → reconciled answers node ≡ node
unfolding reconciled
reconciled-settled [] node h = refl
reconciled-settled (answer ∷ answers) node h =
    ap (reconciled answers) (reconcile-settled answer node h) ∙ reconciled-settled answers node h

patched_node_twice : (node : Node) → patched_node (patched_node node) ≡ patched_node node
patched_node_twice node =
    ap (λ b. if b then without_stale_taint (patched_node node) else patched_node node)
      (patched_node-settled node)

settles :
    (before after : List (Option Error)) (node : Node)
    → reconciled (before ++ (none ∷ after)) node ≡ patched_node node
unfolding reconciled
settles [] after node =
    ap (reconciled after) (reconcile-patched_node node)
    ∙ reconciled-settled after (patched_node node) (patched_node-settled node)
settles (none ∷ before) after node =
    settles before after (reconcile none node).1
    ∙ ap patched_node (reconcile-patched_node node)
    ∙ patched_node_twice node
settles (some e ∷ before) after node =
    settles before after (reconcile (some e) node).1 ∙ ap patched_node (reconcile-refused e node)

-- Whatever errors the patches are answered with before, and whatever comes after: once one patch is
-- accepted, a node whose label karpenter.sh/registered is "true" has lost its taints with the key
-- karpenter.sh/unregistered and the effect NoExecute and nothing else, any other node is as it was,
-- and the node is not one that the controller is after.
pub reconciled-cleaned :
    (before after : List (Option Error)) (node : Node)
    → (reconciled (before ++ (none ∷ after)) node ≡ cleaned node)
      × (is_karpenter_registered_with_stale_taint (reconciled (before ++ (none ∷ after)) node)
          ≡ false)
reconciled-cleaned before after node =
    let end = settles before after node in
    (end ∙ patched_node-cleaned node, ap stale end ∙ patched_node-settled node)
