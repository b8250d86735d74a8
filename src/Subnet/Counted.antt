-- ===== src/Subnet/Counted.antt =====
-- What one reservation, one release and one listing of pkg/providers/subnet/subnet.go make of the count
-- in flight of a subnet, also where listings come between the launches on it.
use karpenter_provider_huawe.Base.{
  ℕ, ◌+◌, ◌^◌, ◌≤◌, ◌<◌, ◌≡◌, refl, inl, inr, String, Bool, true, false, List, [], ◌∷◌, Option,
  none, some, ◌==◌, ◌&&◌, if◌then◌else◌, arith, All, Bool-cases,
}
use karpenter_provider_huawe.Base.Int.{
  ℤ, pos, pos_part, neg_part, leb_ℤ, IsInt32, ◌-i32◌, ◌+i32◌, sub_exact, add_exact,
}
use karpenter_provider_huawe.Apis.{SubnetSelectorTerm}
use karpenter_provider_huawe.Subnet.{VpcSubnet, or_else, matches_subnet_selector_terms}
use karpenter_provider_huawe.Subnet.Refreshed.{found}
use karpenter_provider_huawe.Subnet.Accounts.{
  Accounts, Accounts-reserve, Accounts-release, after_release, sub-IsInt32, add-IsInt32,
}

-- The count in flight is below the cached one, and by no more than what is reserved.
abbrev pub Within : Option ℤ → ℕ → ℤ → Type 0
Within none out base = Unit
Within (some v) out base =
    (pos_part base + neg_part v ≤ pos_part v + out + neg_part base)
    × (pos_part v + neg_part base < pos_part base + neg_part v)
    × IsInt32 v

-- What is known of the count in flight of a subnet with `base` addresses, `out` of which are reserved:
-- it is within these, and for a steady subnet it is the difference.
abbrev pub Counted : Bool → Option ℤ → ℕ → ℤ → Type 0
Counted steady o out base = Within o out base × (steady ≡ true → Accounts o out base)

Within-reserve :
    (o : Option ℤ) (out k : ℕ) (base available : ℤ)
    → Within o out base
    → available ≡ or_else o base
    → 0 < k
    → IsInt32 base
    → neg_part base + out + k ≤ 2 ^ 31 + pos_part base
    → Within (some (or_else o available -i32 pos k)) (k + out) base
Within-reserve none out k base available h e pk b fits =
    let exact = sub_exact base k b (omega arith) in
    rw e (omega (arith, exact), omega (arith, exact), sub-IsInt32 base k)
Within-reserve (some v) out k base available h e pk b fits =
    let exact = sub_exact v k h.2 (omega (arith, h.0)) in
    (omega (arith, h.0, exact), omega (arith, h.1, exact), sub-IsInt32 v k)

pub Counted-reserve :
    (steady : Bool) (o : Option ℤ) (out k : ℕ) (base available : ℤ)
    → Counted steady o out base
    → available ≡ or_else o base
    → 0 < k
    → IsInt32 base
    → neg_part base + out + k ≤ 2 ^ 31 + pos_part base
    → Counted steady (some (or_else o available -i32 pos k)) (k + out) base
Counted-reserve steady o out k base available h e pk b fits = (
  Within-reserve o out k base available h.0 e pk b fits,
  λ s. Accounts-reserve o out k base available (h.1 s) e pk b fits,
)

-- The count of a subnet after a release of `k` addresses.
abbrev pub after : Option ℤ → ℕ → ℤ → Option ℤ
after none k base = none
after (some v) k base = after_release base (v +i32 pos k)

Within-release :
    (v : ℤ) (out k : ℕ) (base : ℤ)
    → Within (some v) (k + out) base
    → pos_part base + k < 2 ^ 31 + neg_part base
    → Within (after_release base (v +i32 pos k)) out base
unfolding after_release
Within-release v out k base h fits =
    let exact = add_exact v k h.2 (omega (arith, h.1)) in
    elim (Bool-cases (leb_ℤ base (v +i32 pos k))) [
      | inl e ↦ rw e tt
      | inr e ↦ rw e (omega (arith, h.0, exact), ground (arith, e), add-IsInt32 v k)
    ]

pub Counted-release :
    (steady : Bool) (o : Option ℤ) (out k : ℕ) (base : ℤ)
    → Counted steady o (k + out) base
    → 0 < k
    → IsInt32 base
    → pos_part base + k < 2 ^ 31 + neg_part base
    → Counted steady (after o k base) out base
Counted-release steady none out k base h pk b fits =
    (tt, λ s. let none_out = h.1 s in omega (arith, none_out))
Counted-release steady (some v) out k base h pk b fits =
    (Within-release v out k base h.0 fits, λ s. Accounts-release v out k base (h.1 s) b)

-- The last count in a response for a subnet that matches, or the one before.
abbrev pub last_count : List SubnetSelectorTerm → String → ℤ → List VpcSubnet → ℤ
last_count terms id base [] = base
last_count terms id base (s ∷ rs) =
    last_count terms id
      (if matches_subnet_selector_terms s terms && (s.id == id)
        then s.available_ip_address_count
        else base)
      rs

pub last_count-IsInt32 :
    (terms : List SubnetSelectorTerm) (id : String) (base : ℤ) (rs : List VpcSubnet)
    → IsInt32 base
    → All (λ s. IsInt32 s.available_ip_address_count) rs
    → IsInt32 (last_count terms id base rs)
last_count-IsInt32 terms id base [] b h = b
last_count-IsInt32 terms id base (s ∷ rs) b h =
    elim (Bool-cases (matches_subnet_selector_terms s terms && (s.id == id))) [
      | inl e ↦ rw e (last_count-IsInt32 terms id s.available_ip_address_count rs h.0 h.1)
      | inr e ↦ rw e (last_count-IsInt32 terms id base rs b h.1)
    ]

pub last_count-not_found :
    (terms : List SubnetSelectorTerm) (id : String) (base : ℤ) (rs : List VpcSubnet)
    → found terms id rs ≡ false
    → last_count terms id base rs ≡ base
last_count-not_found terms id base [] h = refl
last_count-not_found terms id base (s ∷ rs) h =
    elim (Bool-cases (matches_subnet_selector_terms s terms && (s.id == id))) [
      | inl e ↦ ground (arith, h, e)
      | inr e ↦ rw e (last_count-not_found terms id base rs (ground (arith, h, e)))
    ]
