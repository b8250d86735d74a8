-- ===== src/OfferingCache/Board.antt =====
-- What the marks of pkg/utils/offering_availability_cache.go stand for: a board that says of each
-- offering until when it is sold out. The cache keeps one text per offering in its place.
use karpenter_provider_huawe.Base.{
  ℕ, ◌+◌, ◌≡◌, refl, sym, ◌∙◌, ap, String, Bool, true, false, List, [], ◌∷◌, Option, none, some,
  ◌==◌, ◌&&◌, if◌then◌else◌, leb, arith, Bool-cases, inl, inr, eq_iff, All, is_set,
}
use karpenter_provider_huawe.Ext.GoCache.{GoCache}
use karpenter_provider_huawe.OfferingCache.{
  OfferingCache, offering_availability_key, new_offering_availability_cache, mark_unavailable,
  is_unavailable,
}
use karpenter_provider_huawe.OfferingCache.Marks.{
  NoSlash, is_unavailable-mark_unavailable, offering_availability_key_inj,
}

-- A call of MarkUnavailable, with its time.
pub record Mark : Type 0 where
  pub now : ℕ
  pub capacity_type : String
  pub instance_type : String
  pub zone : String

-- The calls in their order.
unfoldable pub mark_all :
    (G : GoCache (Unit {0})) → List Mark → Option (OfferingCache G) → Option (OfferingCache G)
mark_all G [] c = c
mark_all G (m ∷ ms) c =
    mark_all G ms (mark_unavailable G m.now m.capacity_type m.instance_type m.zone c)

-- Until when each offering is sold out, by its capacity type, instance type and zone.
abbrev pub Board : Type 0
Board = String → String → String → Option ℕ

abbrev pub all_open : Board
all_open a b z = none

abbrev pub close : ℕ → Mark → Board → Board
close ttl m board a b z =
    if (m.capacity_type == a) && (m.instance_type == b) && (m.zone == z)
    then some (m.now + ttl)
    else board a b z

abbrev pub close_all : ℕ → List Mark → Board → Board
close_all ttl [] board = board
close_all ttl (m ∷ ms) board = close_all ttl ms (close ttl m board)

abbrev pub is_closed : ℕ → Option ℕ → Bool
is_closed later none = false
is_closed later (some until) = leb later until

-- A name of the cloud's, which holds no slash.
abbrev pub IsNamed : Mark → Type 0
IsNamed m = NoSlash m.capacity_type × NoSlash m.instance_type

all_equal :
    (a b z a' b' z' : String)
    → a ≡ a'
    → b ≡ b'
    → z ≡ z'
    → ((a == a') && (b == b') && (z == z')) ≡ true
all_equal a b z a' b' z' e f g =
    let both = (eq_iff a a').1 e in
    let second = (eq_iff b b').1 f in
    let third = (eq_iff z z').1 g in ground (arith, both, second, third)

of_all_equal :
    (a b z a' b' z' : String)
    → ((a == a') && (b == b') && (z == z')) ≡ true
    → offering_availability_key a b z ≡ offering_availability_key a' b' z'
of_all_equal a b z a' b' z' h =
    let first : (a == a') ≡ true = ground (arith, h) in
    let second : (b == b') ≡ true = ground (arith, h) in
    let third : (z == z') ≡ true = ground (arith, h) in
    cc ((eq_iff a a').0 first, (eq_iff b b').0 second, (eq_iff z z').0 third)

-- The keys of two offerings are the same text exactly for the same offering.
key-eq :
    (a b z a' b' z' : String)
    → NoSlash a
    → NoSlash b
    → NoSlash a'
    → NoSlash b'
    → (offering_availability_key a b z == offering_availability_key a' b' z')
      ≡ ((a == a') && (b == b') && (z == z'))
key-eq a b z a' b' z' ha hb ha' hb' =
    let k = offering_availability_key a b z in
    let k' = offering_availability_key a' b' z' in
    elim (Bool-cases (k == k')) [
      | inl same ↦
          let (e, f, g) =
            offering_availability_key_inj a b z a' b' z' ha hb ha' hb' ((eq_iff k k').0 same) in
          same ∙ sym (all_equal a b z a' b' z' e f g)
      | inr other ↦ elim (Bool-cases ((a == a') && (b == b') && (z == z'))) [
        | inl every ↦
            let same : (k == k') ≡ true = (eq_iff k k').1 (of_all_equal a b z a' b' z' every) in
            let impossible : ⊥ = ground (arith, other, same) in absurd impossible
        | inr some_other ↦ other ∙ sym some_other
      ]
    ]

-- The cache answers as the board does.
abbrev pub Refines : (G : GoCache (Unit {0})) → OfferingCache G → Board → Type 0
Refines G c board =
    (later : ℕ) (a b z : String)
    → NoSlash a
    → NoSlash b
    → is_unavailable G later a b z (some c) ≡ is_closed later (board a b z)

closed_if :
    (later until : ℕ) (b : Bool) (old : Option ℕ)
    → is_closed later (if b then some until else old)
      ≡ (if b then leb later until else is_closed later old)
closed_if later until true old = refl
closed_if later until false old = refl

-- One mark.
mark_unavailable-Refines :
    (G : GoCache (Unit {0})) (c : OfferingCache G) (board : Board) (m : Mark)
    → IsNamed m
    → Refines G c board
    → Refines G
        (record c {
          cache =
              G.set m.now c.ttl
                (offering_availability_key m.capacity_type m.instance_type m.zone)
                tt
                c.cache;
        })
        (close c.ttl m board)
unfolding mark_unavailable
mark_unavailable-Refines G c board m named h later a b z ha hb =
    is_unavailable-mark_unavailable G m.now later m.capacity_type m.instance_type m.zone a b z c
    ∙ ap (λ t. if t then leb later (m.now + c.ttl) else is_unavailable G later a b z (some c))
        (key-eq m.capacity_type m.instance_type m.zone a b z named.0 named.1 ha hb)
    ∙ ap
        (λ t.
          if (m.capacity_type == a) && (m.instance_type == b) && (m.zone == z)
          then leb later (m.now + c.ttl)
          else t)
        (h later a b z ha hb)
    ∙ sym (closed_if later (m.now + c.ttl) _ (board a b z))

mark_all-Refines :
    (G : GoCache (Unit {0})) (ms : List Mark) (c : OfferingCache G) (board : Board)
    → All IsNamed ms
    → Refines G c board
    → (later : ℕ) (a b z : String) → NoSlash a
    → NoSlash b
    → is_unavailable G later a b z (mark_all G ms (some c))
      ≡ is_closed later (close_all c.ttl ms board a b z)
unfolding mark_all mark_unavailable
mark_all-Refines G [] c board named h later a b z ha hb = h later a b z ha hb
mark_all-Refines G (m ∷ ms) c board named h later a b z ha hb =
    mark_all-Refines G ms _ (close c.ttl m board) named.1
      (mark_unavailable-Refines G c board m named.0 h) later a b z ha hb

-- After any calls of MarkUnavailable on a new cache, the cache says of an offering what a board
-- says on which each call closes its offering, and no other, until the time to live has passed: of
-- names that hold no slash.
pub mark_all-Board :
    (G : GoCache (Unit {0})) (ttl : ℕ) (ms : List Mark)
    → All IsNamed ms
    → (later : ℕ) (a b z : String) → NoSlash a
    → NoSlash b
    → is_unavailable G later a b z (mark_all G ms (some (new_offering_availability_cache G ttl)))
      ≡ is_closed later (close_all ttl ms all_open a b z)
unfolding new_offering_availability_cache is_unavailable
mark_all-Board G ttl ms named =
    mark_all-Refines G ms (new_offering_availability_cache G ttl) all_open named
      (λ later a b z ha hb. ap is_set (G.get-empty later (offering_availability_key a b z)))
