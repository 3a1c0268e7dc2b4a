-- ===== src/Controller.antt =====
-- internal/reconcile: the VPC reconciliation controller.
pub mod Queue
pub mod Vpcs
pub mod Sweep
