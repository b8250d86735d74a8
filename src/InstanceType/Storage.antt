-- ===== src/InstanceType/Storage.antt =====
-- The ephemeral storage of pkg/providers/instancetype/types.go: the size of the file system that
-- CCE puts on the kubernetes volume. Sizes are int64. Every value below stays within 2 ^ 62 for an
-- int32 volume size but one product, which wraps (`wrap64`); so a size is a natural number once its
-- guard against sizes below 0 is passed.
use karpenter_provider_huawe.Base.{
  ℕ, zero, suc, ◌+◌, ◌-◌, ◌*◌, ◌/◌, ◌%◌, ◌^◌, true, false, Option, none, some, if◌then◌else◌, ltb,
  eqb,
}
use karpenter_provider_huawe.Base.Int.{ℤ, pos, negsuc, sub_ℕ, pos_part, leb_ℤ}
use karpenter_provider_huawe.Apis.{
  BlockDevice, BlockDeviceMappings, default_kubernetes_volume_size_gib,
}

abbrev pub bytes_per_gib : ℕ
bytes_per_gib = 1024 * 1024 * 1024

abbrev pub lvm_extent_size_bytes : ℕ
lvm_extent_size_bytes = 4 * 1024 * 1024

abbrev pub ext4_block_size_bytes : ℕ
ext4_block_size_bytes = 4096

abbrev pub ext4_blocks_per_group : ℕ
ext4_blocks_per_group = 32768

abbrev pub ext4_groups_per_descriptor_block : ℕ
ext4_groups_per_descriptor_block = 64

abbrev pub ext4_inode_blocks_per_group : ℕ
ext4_inode_blocks_per_group = 512

abbrev pub ext4_pointers_per_block : ℕ
ext4_pointers_per_block = ext4_block_size_bytes / 4

-- The conversion to int64 of a number that is not negative.
unfoldable pub wrap64 : ℕ → ℤ
wrap64 n = let w = n % 2 ^ 64 in if ltb w (2 ^ 63) then pos w else negsuc (2 ^ 64 - w - 1)

unfoldable pub ceil_div : ℕ → ℕ → ℕ
ceil_div a b = if eqb a 0 then 0 else (a + b - 1) / b

unfoldable pub align_down : ℤ → ℕ → ℤ
align_down (negsuc n) unit = pos 0
align_down (pos v) unit = pos (v / unit * unit)

-- Division by 100, towards 0.
unfoldable pub percent_of : ℤ → ℤ
percent_of (pos n) = pos (n / 100)
percent_of (negsuc n) = sub_ℕ 0 (suc n / 100)

unfoldable pub kubernetes_lv_size : ℤ → ℤ
unfolding align_down percent_of wrap64
kubernetes_lv_size (negsuc n) = pos 0
kubernetes_lv_size (pos n) =
    let aligned = pos_part (align_down (pos n) lvm_extent_size_bytes) in
    align_down (percent_of (wrap64 (aligned * 10))) lvm_extent_size_bytes

-- The inner loop over the powers of a base: the copies counted, from a power on. `group_count` is
-- fuel enough, since the power grows.
unfoldable pub count_powers : ℕ → ℕ → ℕ → ℕ → ℕ → ℕ
count_powers zero base group_count group copies = copies
count_powers (suc fuel) base group_count group copies = elim (ltb group group_count) [
  | false ↦ copies
  | true ↦ elim (ltb ((group_count - 1) / base) group) [
    | true ↦ copies + 1
    | false ↦ count_powers fuel base group_count (group * base) (copies + 1)
  ]
]

unfoldable pub sparse_super_group_copies : ℕ → ℕ
unfolding count_powers
sparse_super_group_copies zero = 0
sparse_super_group_copies (suc n) =
    let count = suc n in
    let threes = count_powers count 3 count 3 2 in
    let fives = count_powers count 5 count 5 threes in count_powers count 7 count 7 fives

abbrev pub min_int64 : ℕ → ℕ → ℕ
min_int64 a b = if ltb a b then a else b

unfoldable pub ext4_reserved_gdt_blocks : ℕ → ℕ → ℕ
unfolding ceil_div
ext4_reserved_gdt_blocks block_count descriptor_blocks =
    if eqb block_count 0
    then 0
    else let max_blocks =
        if ltb block_count (0xffff_ffff / 1024) then block_count * 1024 else 0xffff_ffff in
      let reserved_groups = ceil_div max_blocks ext4_blocks_per_group in
      let needed = ceil_div reserved_groups ext4_groups_per_descriptor_block in
      if ltb needed descriptor_blocks
      then 0
      else min_int64 (needed - descriptor_blocks) ext4_pointers_per_block

unfoldable pub ext4_default_journal_blocks : ℕ → ℕ
ext4_default_journal_blocks block_count =
    if ltb block_count 2048
    then 0
    else if ltb block_count 32768
    then 1024
    else if ltb block_count (256 * 1024)
    then 4096
    else if ltb block_count (512 * 1024)
    then 8192
    else if ltb block_count (4096 * 1024)
    then 16384
    else if ltb block_count (8192 * 1024)
    then 32768
    else if ltb block_count (16384 * 1024)
    then 65536
    else if ltb block_count (32768 * 1024)
    then 131072
    else 262144

-- overheadBlocks of a device of so many blocks.
unfoldable pub ext4_overhead_blocks : ℕ → ℕ
unfolding ceil_div sparse_super_group_copies ext4_reserved_gdt_blocks ext4_default_journal_blocks
ext4_overhead_blocks block_count =
    let group_count = ceil_div block_count ext4_blocks_per_group in
    let descriptor_blocks = ceil_div group_count ext4_groups_per_descriptor_block in
    group_count * (2 + ext4_inode_blocks_per_group)
    + sparse_super_group_copies group_count
      * (1 + descriptor_blocks + ext4_reserved_gdt_blocks block_count descriptor_blocks)
    + ext4_default_journal_blocks block_count

unfoldable pub ext4_filesystem_size_bytes : ℤ → ℤ
ext4_filesystem_size_bytes (negsuc n) = pos 0
ext4_filesystem_size_bytes (pos n) =
    let block_count = n / ext4_block_size_bytes in
    if eqb block_count 0
    then pos 0
    else sub_ℕ n (ext4_overhead_blocks block_count * ext4_block_size_bytes)

-- The size in GiB of the volume for Kubernetes: the default, where none of a positive size is given.
unfoldable pub managed_size_gib : Option BlockDevice → ℕ
managed_size_gib none = pos_part default_kubernetes_volume_size_gib
managed_size_gib (some d) =
    if leb_ℤ d.volume_size (pos 0)
    then pos_part default_kubernetes_volume_size_gib
    else pos_part d.volume_size

unfoldable pub ephemeral_storage : BlockDeviceMappings → ℤ
unfolding managed_size_gib
ephemeral_storage m =
    ext4_filesystem_size_bytes
      (kubernetes_lv_size (sub_ℕ (managed_size_gib m.k8s * bytes_per_gib) (4 * 1024 * 1024)))
