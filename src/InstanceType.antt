-- ===== src/InstanceType.antt =====
-- pkg/providers/instancetype: what an ECS flavor becomes as an instance type of Karpenter.
pub mod Storage
pub mod Copies
pub mod Capacity
pub mod Memory
pub mod Overhead
pub mod Reserve
pub mod Validated
pub mod Resolve
pub mod Resolved
pub mod Allocatable
pub mod Samples
mod Tests
