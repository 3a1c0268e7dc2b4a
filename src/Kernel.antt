-- ===== src/Kernel.antt =====
-- The names and marks that the kernel's network objects carry.
pub mod Decimals
pub mod Names
pub mod Gateways
