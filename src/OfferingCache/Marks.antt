-- ===== src/OfferingCache/Marks.antt =====
-- What a mark of pkg/utils/offering_availability_cache.go says, and of which offering.
use Prim.Native.Char.{Char}
use karpenter_provider_huawe.Base.{
  ℕ, ◌+◌, ◌≡◌, ◌≢◌, refl, sym, ◌∙◌, ap, ◌+str◌, String, some, ◌==◌, if◌then◌else◌, leb, arith,
  Bool-cases, inl, inr,
}
use text.Mathlib.TextLemmas.{cons-append, nil-append, cons-eq-cons, append_cancel_left}
use karpenter_provider_huawe.Ext.GoCache.{GoCache}
use karpenter_provider_huawe.OfferingCache.{
  OfferingCache, offering_availability_key, mark_unavailable, is_unavailable,
}

-- An offering that is marked is unavailable until the cache's time to live has passed; what the
-- cache says of an offering with another key stays.
pub is_unavailable-mark_unavailable :
    (G : GoCache (Unit {0})) (now later : ℕ) (capacity_type instance_type zone : String)
    (capacity_type' instance_type' zone' : String) (c : OfferingCache G)
    → is_unavailable G later capacity_type' instance_type' zone'
        (mark_unavailable G now capacity_type instance_type zone (some c))
      ≡ (if offering_availability_key capacity_type instance_type zone
            == offering_availability_key capacity_type' instance_type' zone'
          then leb later (now + c.ttl)
          else is_unavailable G later capacity_type' instance_type' zone' (some c))
unfolding is_unavailable mark_unavailable
is_unavailable-mark_unavailable G now later a b c a' b' c' s =
    rw
      (G.get-set now later s.ttl (offering_availability_key a b c)
        (offering_availability_key a' b' c'))
      (elim (Bool-cases (offering_availability_key a b c == offering_availability_key a' b' c')) [
        | inl same ↦ rw same (ground arith)
        | inr other ↦ rw other
      ])

-- Text with no slash.
abbrev pub NoSlash : String → Type 0
NoSlash String.[] = Unit
NoSlash (String.◌∷◌ c s) = (c ≢ "/") × NoSlash s

slash-append : (x : String) → "/" +str x ≡ String.◌∷◌ "/" x
slash-append x = cons-append "/" String.[] x ∙ ap (String.◌∷◌ "/") (nil-append x)

-- A text with no slash does not begin like one that goes on with a slash.
head_not_slash :
    {A : Type 0} (d : Char) (t rest x : String)
    → d ≢ "/"
    → (String.◌∷◌ d t) +str rest ≡ String.[] +str "/" +str x
    → A
head_not_slash d t rest x h e =
    absurd (h ((cons-eq-cons.0 (sym (cons-append d t rest) ∙ e ∙ nil-append _ ∙ slash-append x)).0))

before_slash :
    (a b x y : String)
    → NoSlash a
    → NoSlash b
    → a +str "/" +str x ≡ b +str "/" +str y
    → (a ≡ b) × (x ≡ y)
before_slash String.[] String.[] x y h k e =
    (refl, append_cancel_left "/" x y (sym (nil-append _) ∙ e ∙ nil-append _))
before_slash String.[] (String.◌∷◌ d t) x y h k e = head_not_slash d t _ x k.0 (sym e)
before_slash (String.◌∷◌ c s) String.[] x y h k e = head_not_slash c s _ y h.0 e
before_slash (String.◌∷◌ c s) (String.◌∷◌ d t) x y h k e =
    let heads = cons-eq-cons.0 (sym (cons-append c s _) ∙ e ∙ cons-append d t _) in
    let (same, rest) = before_slash s t x y h.1 k.1 heads.1 in (cc (heads.0, same), rest)

-- Offerings that differ in capacity type, instance type or zone have different keys, where no
-- capacity type and no instance type holds a slash.
pub offering_availability_key_inj :
    (a b z a' b' z' : String)
    → NoSlash a
    → NoSlash b
    → NoSlash a'
    → NoSlash b'
    → offering_availability_key a b z ≡ offering_availability_key a' b' z'
    → (a ≡ a') × (b ≡ b') × (z ≡ z')
unfolding offering_availability_key
offering_availability_key_inj a b z a' b' z' ha hb ha' hb' e =
    let (first, rest) = before_slash a a' _ _ ha ha' e in
    let (second, third) = before_slash b b' z z' hb hb' rest in (first, second, third)
