-- ===== src/Service.antt =====
-- internal/service: request validation, address allocation, and the transactions of the API.
pub mod Validate
pub mod Ipam
pub mod Ids
pub mod Names
pub mod Pagination
pub mod Idempotency
pub mod Network
pub mod Requests
pub mod Instances
pub mod Guards
pub mod Issued
