-- ===== src/Service/Ipam.antt =====
-- internal/service/ipam.go: the next free private address of a subnet.
pub mod Free
use nephos.Base.{
  ℕ, zero, suc, ◌+◌, ◌-◌, ◌*◌, ◌/◌, ◌^◌, Bool, not, ◌||◌, List, ltb, if◌then◌else◌, any, Result, ok,
  err,
}
use nephos.Netip.{Addr, v4, Prefix, addr_eq, is4, next, prefix_valid, bits, masked, prefix_eq}
use nephos.Service.Validate.{uint32_of}

-- errAddressExhausted, the error of a malformed subnet, and the end of the fuel
pub data IpamError : Type 0 where
  address_exhausted not_canonical out_of_fuel : IpamError

-- the keys of the map `used`
unfoldable pub is_used : Addr → List Addr → Bool
unfolding addr_eq
is_used ip used = any (λ u. addr_eq u ip) used

-- `x | (1 << k - 1)`
abbrev pub set_low : ℕ → ℕ → ℕ
set_low x k = x / 2 ^ k * 2 ^ k + (2 ^ k - 1)

-- for ip := first; ip != broadcast; ip = ip.Next()
unfoldable pub search_free : ℕ → Addr → Addr → List Addr → Result IpamError Addr
unfolding addr_eq is_used next
search_free zero ip broadcast used = err out_of_fuel
search_free (suc fuel) ip broadcast used =
    let rest = search_free fuel (next ip) broadcast used in
    if addr_eq ip broadcast then err address_exhausted else if is_used ip used then rest else ok ip

-- nextPrivateIP; a round for each address of the subnet is enough fuel
unfoldable pub next_private_ip : Prefix → List Addr → Result IpamError Addr
unfolding prefix_valid is4 bits
next_private_ip p used =
    if not (prefix_valid p)
      || not (is4 p.addr)
      || ltb (bits p) 16
      || ltb 28 (bits p)
      || not (prefix_eq p (masked p))
    then err not_canonical
    else let first = next (next (next (next p.addr))) in
      let broadcast = v4 (set_low (uint32_of p.addr) (32 - bits p)) in
      search_free (2 ^ (32 - bits p)) first broadcast used
