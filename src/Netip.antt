-- ===== src/Netip.antt =====
-- The part of Go's net/netip that the services call: addresses, prefixes and their operations.
-- A zone is never accepted by the callers, and an IPv6 address matters only as "not Is4".
mod Defs
pub mod Text
pub mod Ranges
pub use Defs.{Addr, invalid, v4, v6, Prefix}
unfoldable pub use Defs.{
  addr_eq, is4, next, addr_valid, prefix_valid, bits, host_bits, masked, contains, prefix_eq,
  prefix_overlaps,
}
