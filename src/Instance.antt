-- ===== src/Instance.antt =====
-- pkg/providers/instance: the provider that creates, reads and deletes CCE nodes.
pub mod Failure
pub mod Kubelet
pub mod NodeSpec
pub mod Candidates
pub mod Create
pub mod Queries
pub mod Samples
mod Tests
