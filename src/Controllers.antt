-- ===== src/Controllers.antt =====
-- What the controllers of pkg/controllers share: what a reconciliation asks for, and the errors of
-- the API server that they tell apart.
pub mod Requests
pub mod UnregisteredTaint
pub mod Untainted
pub mod NodeClass
pub mod Finalizer
pub mod SubnetStatus
pub mod Providers
mod Tests
