-- ===== src/InstanceType/Capacity.antt =====
-- Bounds on the ephemeral storage of pkg/providers/instancetype/types.go.
use karpenter_provider_huawe.Base.{ℕ, ◌+◌, ◌-◌, ◌*◌, ◌/◌, ◌^◌, ◌≤◌, ◌<◌, ◌≡◌, false, eqb, arith}
use karpenter_provider_huawe.Base.Int.{pos, sub_ℕ}
use karpenter_provider_huawe.Apis.{BlockDeviceMappings}
use karpenter_provider_huawe.InstanceType.Copies.{sparse_super_group_copies-le}
use karpenter_provider_huawe.InstanceType.Storage.{
  bytes_per_gib, ceil_div, wrap64, align_down, percent_of, kubernetes_lv_size,
  sparse_super_group_copies, ext4_reserved_gdt_blocks, ext4_default_journal_blocks,
  ext4_overhead_blocks, ext4_filesystem_size_bytes, managed_size_gib, ephemeral_storage,
}

ceil_div_group : (n : ℕ) → ceil_div n 32768 ≤ n / 32768 + 1
unfolding ceil_div
ceil_div_group n = ground arith

ceil_div_descriptor : (n : ℕ) → ceil_div n 64 ≤ n / 64 + 1
unfolding ceil_div
ceil_div_descriptor n = ground arith

reserved_gdt-le : (b d : ℕ) → ext4_reserved_gdt_blocks b d ≤ b / 2048 + 2
unfolding ext4_reserved_gdt_blocks ceil_div
reserved_gdt-le b d = ground arith

journal-le : (b : ℕ) → ext4_default_journal_blocks b ≤ b / 8 + 1024
unfolding ext4_default_journal_blocks
journal-le b = ground arith

mul-le : (a b c : ℕ) → a ≤ b → a * c ≤ b * c
mul-le a b c h = grind arith

-- From some 98 MiB up to 2 ^ 60 bytes the overhead takes less than half of the blocks.
overhead-le : (b : ℕ) → 24900 ≤ b → b ≤ 2 ^ 47 → 2 * ext4_overhead_blocks b ≤ b
unfolding ext4_overhead_blocks
overhead-le b lo hi =
    let g = ceil_div b 32768 in
    let d = ceil_div g 64 in
    omega (
      arith,
      ceil_div_group b,
      ceil_div_descriptor g,
      reserved_gdt-le b d,
      journal-le b,
      mul-le (sparse_super_group_copies g) 62 (1 + d + ext4_reserved_gdt_blocks b d)
          (sparse_super_group_copies-le g (omega (arith, ceil_div_group b))),
    )

sub_ℕ-of_le : (a b : ℕ) → b ≤ a → sub_ℕ a b ≡ pos (a - b)
sub_ℕ-of_le a b h = ground arith

not_zero : (n : ℕ) → 0 < n → eqb n 0 ≡ false
not_zero n h = ground arith

-- A file system on a device of 98 MiB to 2 ^ 59 bytes has at least half of its whole blocks, and no
-- more bytes than the device.
pub ext4_filesystem_size_bytes_bounds :
    (n : ℕ)
    → 24900 * 4096 ≤ n
    → n ≤ 2 ^ 59
    → (size : ℕ) × (ext4_filesystem_size_bytes (pos n) ≡ pos size)
      × (n ≤ 2 * size + 4096)
      × (size ≤ n)
unfolding ext4_filesystem_size_bytes
ext4_filesystem_size_bytes_bounds n lo hi = (
  n - ext4_overhead_blocks (n / 4096) * 4096,
  rw (not_zero (n / 4096) (omega arith)) (sub_ℕ-of_le n _ (omega (arith, small))),
  omega (arith, small),
  omega arith,
)
  where
    small : 2 * ext4_overhead_blocks (n / 4096) ≤ n / 4096
    small = overhead-le (n / 4096) (omega arith) (omega arith)

wrap64_id : (n : ℕ) → n < 2 ^ 63 → wrap64 n ≡ pos n
unfolding wrap64
wrap64_id n h = ground arith

-- The kubernetes volume: a whole number of extents, at most a tenth of the managed volume and not
-- twelve tenths of an extent less than that.
kubernetes_lv_size_bounds :
    (n : ℕ)
    → n * 10 < 2 ^ 63
    → (k : ℕ) × (kubernetes_lv_size (pos n) ≡ pos k)
      × (10 * k ≤ n)
      × (n ≤ 10 * k + 11 * 4194304 + 10)
unfolding kubernetes_lv_size align_down percent_of
kubernetes_lv_size_bounds n h = (
  n / 4194304 * 4194304 * 10 / 100 / 4194304 * 4194304,
  rw (wrap64_id (n / 4194304 * 4194304 * 10) (omega arith)),
  omega arith,
  omega arith,
)

-- The ephemeral storage of a node whose Kubernetes volume, given or the default, has 1 to 500
-- million GiB is positive, at least a thirtieth of the volume and at most a tenth.
pub ephemeral_storage_bounds :
    (m : BlockDeviceMappings)
    → 1 ≤ managed_size_gib m.k8s
    → managed_size_gib m.k8s ≤ 500000000
    → (size : ℕ) × (ephemeral_storage m ≡ pos size)
      × (0 < size)
      × (managed_size_gib m.k8s * bytes_per_gib ≤ 30 * size)
      × (10 * size ≤ managed_size_gib m.k8s * bytes_per_gib)
unfolding ephemeral_storage
ephemeral_storage_bounds m lo hi =
    let (k, is_k, k_hi, k_lo) =
      kubernetes_lv_size_bounds (managed_size_gib m.k8s * 1073741824 - 4194304) (omega arith) in
    on_volume k is_k k_hi k_lo
  where
    on_system :
        (k size : ℕ)
        → kubernetes_lv_size (pos (managed_size_gib m.k8s * 1073741824 - 4194304)) ≡ pos k
        → ext4_filesystem_size_bytes (pos k) ≡ pos size
        → 10 * k ≤ managed_size_gib m.k8s * 1073741824 - 4194304
        → managed_size_gib m.k8s * 1073741824 - 4194304 ≤ 10 * k + 11 * 4194304 + 10
        → k ≤ 2 * size + 4096
        → size ≤ k
        → (size : ℕ) × (ephemeral_storage m ≡ pos size)
          × (0 < size)
          × (managed_size_gib m.k8s * bytes_per_gib ≤ 30 * size)
          × (10 * size ≤ managed_size_gib m.k8s * bytes_per_gib)
    on_system k size is_k is_size k_hi k_lo s_lo s_hi = (
      size,
      rw (sub_ℕ-of_le (managed_size_gib m.k8s * 1073741824) 4194304 (omega arith), is_k) is_size,
      omega arith,
      omega arith,
      omega arith,
    )

    on_volume :
        (k : ℕ)
        → kubernetes_lv_size (pos (managed_size_gib m.k8s * 1073741824 - 4194304)) ≡ pos k
        → 10 * k ≤ managed_size_gib m.k8s * 1073741824 - 4194304
        → managed_size_gib m.k8s * 1073741824 - 4194304 ≤ 10 * k + 11 * 4194304 + 10
        → (size : ℕ) × (ephemeral_storage m ≡ pos size)
          × (0 < size)
          × (managed_size_gib m.k8s * bytes_per_gib ≤ 30 * size)
          × (10 * size ≤ managed_size_gib m.k8s * bytes_per_gib)
    on_volume k is_k k_hi k_lo =
        let (size, is_size, s_lo, s_hi) =
          ext4_filesystem_size_bytes_bounds k (omega arith) (omega arith) in
        on_system k size is_k is_size k_hi k_lo s_lo s_hi
