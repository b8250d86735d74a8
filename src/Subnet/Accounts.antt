-- ===== src/Subnet/Accounts.antt =====
-- The accounts behind the addresses in flight of pkg/providers/subnet/subnet.go: what one
-- reservation and one release make of the count of each subnet.
use karpenter_provider_huawe.Base.{
  ℕ, zero, suc, ◌+◌, ◌^◌, ◌≤◌, ◌<◌, ◌≡◌, refl, sym, ◌∙◌, subst, inl, inr, String, Bool, true, false,
  List, [], ◌∷◌, ◌++◌, Option, none, some, ◌==◌, if◌then◌else◌, arith, eq_iff, eq_refl,
  Option-cases, Bool-cases,
}
use karpenter_provider_huawe.Base.Int.{
  ℤ, pos, negsuc, ◌≤ℤ◌, ◌-ℤ◌, ◌+ℤ◌, ◌-i32◌, ◌+i32◌, pos_part, neg_part, ltb_ℤ, leb_ℤ,
  wrap32-IsInt32, IsInt32, IsSum, sub_exact, add_exact,
}
use karpenter_provider_huawe.Base.Maps.{Map, lookup, lookup-insert, lookup-erase}
use native.Mathlib.Nat.{zero-add}
use karpenter_provider_huawe.Ext.GoCache.{GoCache}
use karpenter_provider_huawe.Ext.Scheduling.{Scheduling, InstanceType}
use karpenter_provider_huawe.Subnet.{
  VpcSubnet, LaunchSubnet, State, or_else, reserve, released, release_tracked, predicted_ips,
  max_predicted, launch_zones,
}

-- The reservations on a subnet that launches still hold.
abbrev pub outstanding : String → List LaunchSubnet → ℕ
outstanding id [] = 0
outstanding id (l ∷ ls) =
    (if l.id == id then pos_part l.reserved_ip_address_count else 0) + outstanding id ls

-- The count in flight of a subnet with `base` addresses, `out` of which are reserved: there is one
-- exactly while some are, and it is what is left, an int32.
abbrev pub Accounts : Option ℤ → ℕ → ℤ → Type 0
Accounts none out base = out ≡ 0
Accounts (some v) out base = IsSum base v out × (0 < out) × IsInt32 v

-- No reservation is negative, and it is an int32.
pub predicted_ips-nonneg :
    (S : Scheduling) (capacity_type : String) (its : List (InstanceType S))
    → pos 0 ≤ℤ predicted_ips S capacity_type its
unfolding predicted_ips
predicted_ips-nonneg S capacity_type its =
    grows (launch_zones S capacity_type its []) (pos 0) (omega arith)
  where
    grows :
        (zones : List String) (most : ℤ)
        → pos 0 ≤ℤ most
        → pos 0 ≤ℤ max_predicted S capacity_type its zones most
    grows [] most h = h
    grows (z ∷ zones) most h = grows zones _ (ground arith)

pub sub-IsInt32 : (a : ℤ) (k : ℕ) → IsInt32 (a -i32 pos k)
unfolding ◌-i32◌
sub-IsInt32 a k = wrap32-IsInt32 (a -ℤ pos k)

pub add-IsInt32 : (a : ℤ) (k : ℕ) → IsInt32 (a +i32 pos k)
unfolding ◌+i32◌
add-IsInt32 a k = wrap32-IsInt32 (a +ℤ pos k)

-- One reservation of `k` addresses.
pub Accounts-reserve :
    (o : Option ℤ) (out k : ℕ) (base available : ℤ)
    → Accounts o out base
    → available ≡ or_else o base
    → 0 < k
    → IsInt32 base
    → neg_part base + out + k ≤ 2 ^ 31 + pos_part base
    → Accounts (some (or_else o available -i32 pos k)) (k + out) base
Accounts-reserve none out k base available h e pk b fits =
    rw e (omega (arith, sub_exact base k b (omega arith)), omega arith, sub-IsInt32 base k)
Accounts-reserve (some v) out k base available h e pk b fits =
    (omega (arith, h.0, sub_exact v k h.2 (omega (arith, h.0))), omega arith, sub-IsInt32 v k)

-- One release of `k` addresses, with the base count cached.
unfoldable pub after_release : ℤ → ℤ → Option ℤ
after_release base updated = if leb_ℤ base updated then none else some updated

after_release-Accounts :
    (base updated : ℤ) (out : ℕ)
    → IsSum base updated out
    → IsInt32 updated
    → Accounts (after_release base updated) out base
unfolding after_release
after_release-Accounts base updated out h i = elim (Bool-cases (leb_ℤ base updated)) [
  | inl e ↦ rw e (ground arith)
  | inr e ↦ rw e (h, ground arith, i)
]

pub Accounts-release :
    (v : ℤ) (out k : ℕ) (base : ℤ)
    → Accounts (some v) (k + out) base
    → IsInt32 base
    → Accounts (after_release base (v +i32 pos k)) out base
Accounts-release v out k base h b =
    after_release-Accounts base (v +i32 pos k) out
      (omega (arith, h.0, add_exact v k h.2 (omega (arith, h.0, b.below)))) (add-IsInt32 v k)

pub released-lookup :
    (C : GoCache (List VpcSubnet)) (A : GoCache ℤ) (id j : String) (updated base : ℤ) (m : Map ℤ)
    → lookup j (released C A id updated (some base) m)
      ≡ (if id == j then after_release base updated else lookup j m)
unfolding released after_release
released-lookup C A id j updated base m = elim (Bool-cases (leb_ℤ base updated)) [
  | inl e ↦ rw e (lookup-erase id j m)
  | inr e ↦ rw e (lookup-insert id j updated m)
]

pub outstanding-append :
    (id : String) (before after : List LaunchSubnet) (l : LaunchSubnet)
    → outstanding id (before ++ l ∷ after) ≡ outstanding id (l ∷ before ++ after)
outstanding-append id [] after l = refl
outstanding-append id (b ∷ before) after l = omega (arith, outstanding-append id before after l)

-- A launch that is under way: a reservation on a named subnet that is not negative.
abbrev pub IsHeld : LaunchSubnet → Type 0
IsHeld l = ((l.id == "") ≡ false) × (pos 0 ≤ℤ l.reserved_ip_address_count)

pub nonneg_pos : (z : ℤ) → pos 0 ≤ℤ z → z ≡ pos (pos_part z)
nonneg_pos (pos n) h = refl
nonneg_pos (negsuc n) h = absurd (omega arith)

module _ (C : GoCache (List VpcSubnet)) (A : GoCache ℤ) (base : String → ℤ) where
  pos_positive : (k : ℕ) → 0 < k → ltb_ℤ (pos 0) (pos k) ≡ true
  pos_positive k h = ground arith

  pub reserve-lookup :
      (id j : String) (available : ℤ) (k : ℕ) (p : State C A)
      → 0 < k
      → lookup j (reserve C A id available (pos k) p).inflight_ips ≡ (
          if id == j
          then some (or_else (lookup id p.inflight_ips) available -i32 pos k)
          else lookup j p.inflight_ips)
  unfolding reserve
  reserve-lookup id j available k p h = rw (pos_positive k h) (lookup-insert id j _ p.inflight_ips)

  zero_if : (b : Bool) (n : ℕ) → (if b then 0 else 0) + n ≡ n
  zero_if b n = ground arith

  module _ (p : State C A) (held : List LaunchSubnet)
      (accounts : (id : String)
        → Accounts (lookup id p.inflight_ips) (outstanding id held) (base id)) where
    pub reserve-Accounts :
        (id j : String) (available : ℤ) (k : ℕ)
        → IsInt32 (base id)
        → available ≡ or_else (lookup id p.inflight_ips) (base id)
        → neg_part (base id) + outstanding id held + k ≤ 2 ^ 31 + pos_part (base id)
        → Accounts
            (lookup j (reserve C A id available (pos k) p).inflight_ips)
            ((if id == j then k else 0) + outstanding j held)
            (base j)
    unfolding reserve
    reserve-Accounts id j available zero int32 e fits =
        subst (λ n. Accounts (lookup j p.inflight_ips) n (base j)) (sym (zero_if (id == j) _))
          (accounts j)
    reserve-Accounts id j available (suc k) int32 e fits =
        rw (reserve-lookup id j available (suc k) p (omega arith)) (elim (Bool-cases (id == j)) [
          | inl same ↦ rw same (
              subst
                (λ x.
                  Accounts (some (or_else (lookup id p.inflight_ips) available -i32 pos (suc k)))
                    (suc k + outstanding x held) (base x))
                ((eq_iff id j).0 same)
                (Accounts-reserve (lookup id p.inflight_ips) (outstanding id held) (suc k) (base id)
                  available (accounts id) e (omega arith) int32 fits))
          | inr other ↦ rw (other, zero-add) (accounts j)
        ])

    -- What a release leaves on each subnet.
    pub release-Accounts :
        (now : ℕ) (id j : String) (k : ℕ) (after : List LaunchSubnet)
        → ((x : String) → outstanding x held ≡ (if id == x then k else 0) + outstanding x after)
        → 0 < k
        → IsInt32 (base id)
        → A.get now id p.available_ip_address_cache ≡ some (base id)
        → Accounts
            (lookup j
              (release_tracked C A now id (pos k) (lookup id p.inflight_ips) p).inflight_ips)
            (outstanding j after)
            (base j)
    unfolding release_tracked
    release-Accounts now id j k after split pk int32 fresh =
        elim (Option-cases (lookup id p.inflight_ips)) [
          | inl e ↦ absurd (untracked e)
          | inr (v, e) ↦
              rw (e, release_tracked, fresh, released-lookup C A id j)
                (elim (Bool-cases (id == j)) [
                  | inl same ↦ rw same (
                      subst
                        (λ x.
                          Accounts (after_release (base id) (v +i32 pos k)) (outstanding x after)
                            (base x))
                        ((eq_iff id j).0 same)
                        (Accounts-release v _ k (base id)
                          (subst (λ n. Accounts (some v) n (base id)) own (rw e at (accounts id)))
                          int32))
                  | inr other ↦ rw other (
                      subst (λ n. Accounts (lookup j p.inflight_ips) n (base j)) (rest other)
                        (accounts j))
                ])
        ]
      where
        own : outstanding id held ≡ k + outstanding id after
        own = rw (eq_refl id) at (split id)

        untracked : lookup id p.inflight_ips ≡ none → ⊥
        untracked e =
            let none_out : outstanding id held ≡ 0 = rw e at (accounts id) in omega (arith, own)

        rest : (id == j) ≡ false → outstanding j held ≡ outstanding j after
        rest other = (rw other at (split j)) ∙ zero-add _
