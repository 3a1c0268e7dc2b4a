-- ===== src/Service/Validate.antt =====
-- internal/service/validate.go: CIDR blocks and the relations between a VPC and its subnets.
pub mod Ranges
pub mod Cidr
pub mod Containment
use nephos.Base.{
  ℕ, zero, suc, ◌+◌, ◌-◌, ◌%◌, ◌^◌, Bool, false, not, ◌&&◌, ◌||◌, Option, none, some, List, [], ◌∷◌,
  ltb, leb, ◌==◌, if◌then◌else◌, Str, Result, ok, err,
}
use nephos.Netip.{
  Addr, invalid, v4, v6, Prefix, is4, next, prefix_valid, bits, host_bits, masked, contains,
}
use nephos.Netip.Text.{parse_prefix}
use nephos.Errors.{Error, api, subnet_range, subnet_conflict, invalid_parameter}

abbrev pub size_in_range : Prefix → Bool
unfolding is4 bits
size_in_range p = is4 p.addr && (leb 16 (bits p) && leb (bits p) 28)

-- what ParseCIDR makes of the parsed text
abbrev pub check_size : Option Prefix → Result Error Prefix
check_size none = err invalid_parameter
check_size (some p) = if size_in_range p then ok (masked p) else err invalid_parameter

-- ParseCIDR
unfoldable pub parse_cidr : Str → Result Error Prefix
parse_cidr raw = check_size (parse_prefix raw)

-- ValidateSubnetRange
unfoldable pub validate_subnet_range : Prefix → Prefix → Result Error (Unit {0})
unfolding prefix_valid is4 bits
validate_subnet_range vpc subnet =
    if not (prefix_valid vpc)
      || not (prefix_valid subnet)
      || not (is4 vpc.addr)
      || not (is4 subnet.addr)
      || ltb (bits subnet) (bits vpc)
      || not (contains (masked vpc) (masked subnet).addr)
    then err (api (record { code = subnet_range; resource_id = []; status = 400 }))
    else ok tt

-- Overlaps
unfoldable pub overlaps : Prefix → Prefix → Bool
unfolding prefix_valid is4
overlaps a b =
    if not (prefix_valid a) || not (prefix_valid b) || not (is4 a.addr) || not (is4 b.addr)
    then false
    else contains (masked a) (masked b).addr || contains (masked b) (masked a).addr

-- ValidateSubnetDisjoint
unfoldable pub validate_subnet_disjoint : Prefix → List Prefix → Result Error (Unit {0})
validate_subnet_disjoint subnet [] = ok tt
validate_subnet_disjoint subnet (sibling ∷ siblings) =
    let rest = validate_subnet_disjoint subnet siblings in
    if overlaps subnet sibling
    then err (api (record { code = subnet_conflict; resource_id = []; status = 409 }))
    else rest

-- Gateway
unfoldable pub gateway : Prefix → Addr
unfolding prefix_valid is4 masked next
gateway p = if not (prefix_valid p) || not (is4 p.addr) then invalid else next (masked p).addr

-- firstAssignable
unfoldable pub first_assignable : Prefix → Addr
unfolding prefix_valid is4 masked next
first_assignable p =
    if not (prefix_valid p) || not (is4 p.addr)
    then invalid
    else next (next (next (next (masked p).addr)))

-- binary.BigEndian.Uint32 of As4
abbrev pub uint32_of : Addr → ℕ
uint32_of (v4 a) = a
uint32_of _ = 0

-- reservedAddress; the difference of two uint32 wraps
unfoldable pub reserved_address : Prefix → Addr → Bool
unfolding prefix_valid is4 bits
reserved_address p x =
    if not (prefix_valid p)
      || not (is4 p.addr)
      || ltb (bits p) 16
      || ltb 28 (bits p)
      || not (is4 x)
      || not (contains p x)
    then false
    else let offset = (uint32_of x + 2 ^ 32 - uint32_of (masked p).addr) % 2 ^ 32 in
      let last = (2 ^ (32 - bits p) + 2 ^ 32 - 1) % 2 ^ 32 in leb offset 3 || (offset == last)
