-- ===== src/Netip/Defs.antt =====
-- netip.Addr and netip.Prefix.
use nephos.Base.{
  ℕ, ◌+◌, ◌-◌, ◌*◌, ◌/◌, ◌^◌, Bool, true, false, not, ◌&&◌, ◌||◌, bool_eq, ltb, ◌==◌, if◌then◌else◌,
}
use Prim.Native.Nat.{min}

-- the zero Addr, an IPv4 address as its uint32, an IPv6 address as its 128-bit number
pub data Addr : Type 0 where
  invalid : Addr
  v4 : ℕ → Addr
  v6 : ℕ → Addr

-- `bits_plus_one` is 0 in the zero Prefix
pub record Prefix : Type 0 where
  pub addr : Addr
  pub bits_plus_one : ℕ

unfoldable pub addr_eq : Addr → Addr → Bool
addr_eq invalid invalid = true
addr_eq (v4 a) (v4 b) = a == b
addr_eq (v6 a) (v6 b) = a == b
addr_eq _ _ = false

unfoldable pub is4 : Addr → Bool
is4 (v4 a) = true
is4 _ = false

unfoldable pub addr_valid : Addr → Bool
addr_valid invalid = false
addr_valid _ = true

-- Addr.Next: the zero Addr after the last address
unfoldable pub next : Addr → Addr
next invalid = invalid
next (v4 a) = if ltb (a + 1) (2 ^ 32) then v4 (a + 1) else invalid
next (v6 a) = if ltb (a + 1) (2 ^ 128) then v6 (a + 1) else invalid

unfoldable pub prefix_valid : Prefix → Bool
prefix_valid p = ltb 0 p.bits_plus_one

-- Prefix.Bits of a valid prefix (Go gives -1 for the zero Prefix, which the callers exclude first)
unfoldable pub bits : Prefix → ℕ
bits p = p.bits_plus_one - 1

-- the number of host bits of an IPv4 prefix
unfoldable pub host_bits : Prefix → ℕ
unfolding bits
host_bits p = 32 - bits p

abbrev mask_addr : ℕ → Addr → Addr
mask_addr n invalid = invalid
mask_addr n (v4 a) = v4 (a / 2 ^ (32 - n) * 2 ^ (32 - n))
mask_addr n (v6 a) = v6 (a / 2 ^ (128 - n) * 2 ^ (128 - n))

-- Prefix.Masked clears the host bits
unfoldable pub masked : Prefix → Prefix
unfolding bits prefix_valid
masked p =
    if prefix_valid p
    then record { addr = mask_addr (bits p) p.addr; bits_plus_one = p.bits_plus_one }
    else record { addr = invalid; bits_plus_one = 0 }

abbrev same_network : ℕ → Addr → Addr → Bool
same_network n (v4 a) (v4 b) = a / 2 ^ (32 - n) == b / 2 ^ (32 - n)
same_network n (v6 a) (v6 b) = a / 2 ^ (128 - n) == b / 2 ^ (128 - n)
same_network n _ _ = false

-- Prefix.Contains: the network bits agree, and the families are one
unfoldable pub contains : Prefix → Addr → Bool
unfolding bits prefix_valid
contains p x = prefix_valid p && same_network (bits p) p.addr x

-- `==` on netip.Prefix
unfoldable pub prefix_eq : Prefix → Prefix → Bool
unfolding addr_eq
prefix_eq p q = addr_eq p.addr q.addr && (p.bits_plus_one == q.bits_plus_one)

-- netip.Prefix.Overlaps
unfoldable pub prefix_overlaps : Prefix → Prefix → Bool
unfolding prefix_valid is4 prefix_eq bits
prefix_overlaps p q =
    if not (prefix_valid p) || not (prefix_valid q)
    then false
    else if prefix_eq p q
    then true
    else if not (bool_eq (is4 p.addr) (is4 q.addr))
    then false
    else if min (bits p) (bits q) == 0
    then true
    else same_network (min (bits p) (bits q)) p.addr q.addr
