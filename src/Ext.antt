-- ===== src/Ext.antt =====
-- What the program calls and does not implement, as interfaces: github.com/patrickmn/go-cache,
-- Karpenter's scheduling requirements with the offerings built on them, float64 and float32, the discovery of the
-- API server.
pub mod GoCache
pub mod Float32
pub mod Scheduling
pub mod Samples
pub mod Ecs
pub mod Kubernetes
pub mod Billing
