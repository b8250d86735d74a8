-- ===== src/InstanceType/Memory.antt =====
-- The memory that pkg/providers/instancetype/types.go reserves on a node, in MiB. The memory of a
-- flavor is an int32 that is not negative, so that no product leaves int64.
use karpenter_provider_huawe.Base.{
  ℕ, ◌+◌, ◌*◌, ◌/◌, ◌≤◌, ◌<◌, String, ◌==◌, if◌then◌else◌, leb, arith, Bool-cases, inl, inr,
}

unfoldable pub default_max_pods_by_memory_mib : ℕ → ℕ
default_max_pods_by_memory_mib memory =
    if leb 65536 memory
    then 110
    else if leb 32768 memory
    then 80
    else if leb 16384 memory
    then 60
    else if leb 8192 memory
    then 40
    else 20

unfoldable pub system_reserved_memory_mib : ℕ → ℕ
system_reserved_memory_mib memory = 400 + memory * 25 / 1024

unfoldable pub kube_reserved_memory_mib : ℕ → String → ℕ
unfolding default_max_pods_by_memory_mib
kube_reserved_memory_mib memory runtime_type =
    500 + (if runtime_type == "docker" then 20 else 5) * default_max_pods_by_memory_mib memory

-- On a node with at least 2 GiB, the memory that is reserved for the system and for Kubernetes is
-- more than 100 MiB less than the memory that there is, whichever the runtime.
pub reserved-lt-memory :
    (memory : ℕ) (runtime_type : String)
    → 2048 ≤ memory
    → kube_reserved_memory_mib memory runtime_type + system_reserved_memory_mib memory + 100
      < memory
unfolding system_reserved_memory_mib kube_reserved_memory_mib
reserved-lt-memory memory runtime_type h = elim (Bool-cases (runtime_type == "docker")) [
  | inl e ↦ rw e (ground arith)
  | inr e ↦ rw e (ground arith)
]
