-- ===== src/Reconcile.antt =====
-- pkg/reconcile, the pure engine: events and facts (`Model`), the freshness order (`Freshness`),
-- the decision policy (`Policy`), canonicalization (`Canonicalize`), the batch (`Resolve`) and
-- the convergence of a target (`Converge`).
pub mod Clock
pub mod Model
pub mod Freshness
pub mod Policy
pub mod Platform
pub mod Canonicalize
pub mod Projection
pub mod Resolve
pub mod Converge
