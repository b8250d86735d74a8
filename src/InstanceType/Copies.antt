-- ===== src/InstanceType/Copies.antt =====
-- How many backup superblocks sparseSuperGroupCopies of pkg/providers/instancetype/types.go counts.
use karpenter_provider_huawe.Base.{ℕ, zero, suc, ◌+◌, ◌*◌, ◌^◌, ◌≤◌, ◌<◌, ◌≡◌, refl, arith}
use karpenter_provider_huawe.InstanceType.Storage.{count_powers, sparse_super_group_copies}

-- After m threefold growths `group` has reached the bound.
abbrev Within : ℕ → ℕ → ℕ → Type 0
Within zero group bound = bound ≤ group
Within (suc m) group bound = Within m (3 * group) bound

Within-mono : (m g h bound : ℕ) → g ≤ h → Within m g bound → Within m h bound
Within-mono zero g h bound le w = omega arith
Within-mono (suc m) g h bound le w = Within-mono m (3 * g) (3 * h) bound (omega arith) w

count_powers-le :
    (fuel m base bound group copies : ℕ)
    → 3 ≤ base
    → Within m group bound
    → count_powers fuel base bound group copies ≤ copies + m
unfolding count_powers
count_powers-le zero m base bound group copies b w = omega arith
count_powers-le (suc fuel) zero base bound group copies b w = ground arith
count_powers-le (suc fuel) (suc m) base bound group copies b w = ground (
  arith,
  count_powers-le fuel m base bound (group * base) (copies + 1) b
      (Within-mono m (3 * group) (group * base) bound (grind arith) w),
)

-- Up to 2 ^ 33 groups there are at most 62 copies.
pub sparse_super_group_copies-le : (n : ℕ) → n ≤ 2 ^ 33 → sparse_super_group_copies n ≤ 62
unfolding sparse_super_group_copies
sparse_super_group_copies-le zero h = omega arith
sparse_super_group_copies-le (suc n) h = omega (
  arith,
  count_powers-le (suc n) 20 7 (suc n) 7
      (count_powers (suc n) 5 (suc n) 5 (count_powers (suc n) 3 (suc n) 3 2)) (omega arith)
      (omega arith),
  count_powers-le (suc n) 20 5 (suc n) 5 (count_powers (suc n) 3 (suc n) 3 2) (omega arith)
      (omega arith),
  count_powers-le (suc n) 20 3 (suc n) 3 2 (omega arith) (omega arith),
)

-- The loop ends by its tests, and not by its fuel: with enough of it, more changes nothing.
pub count_powers_fuel :
    (fuel more base bound group copies : ℕ)
    → 3 ≤ base
    → 0 < group
    → bound ≤ fuel + group
    → bound ≤ more + group
    → count_powers fuel base bound group copies ≡ count_powers more base bound group copies
unfolding count_powers
count_powers_fuel zero zero base bound group copies b g h k = refl
count_powers_fuel zero (suc more) base bound group copies b g h k = ground arith
count_powers_fuel (suc fuel) zero base bound group copies b g h k = ground arith
count_powers_fuel (suc fuel) (suc more) base bound group copies b g h k = ground (
  arith,
  count_powers_fuel fuel more base bound (group * base) (copies + 1) b (grind arith)
      (omega (arith, grows)) (omega (arith, grows)),
)
  where
    grows : group + 1 ≤ group * base
    grows = grind arith
