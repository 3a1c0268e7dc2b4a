-- ===== src/Kernel/Gateways.antt =====
-- internal/network/topology/vpc_linux.go: the router addresses that a VPC's namespace is to have.
pub mod Blocks
pub mod Snapshot
pub mod Provided
use nephos.Base.{
  ℕ, Bool, true, false, not, ◌&&◌, ◌||◌, List, [], ◌∷◌, ◌++◌, ltb, ◌==◌, any, if◌then◌else◌, str_eq,
  Result, ok, err,
}
use nephos.Netip.{
  Addr, invalid, v4, v6, Prefix, bits, is4, prefix_valid, prefix_eq, prefix_overlaps, masked,
  contains, next,
}
use nephos.Model.{Vpc, Subnet}
use nephos.Errors.{Error, failure}

-- `a.Compare(b) < 0`: by the length of the address, then by its number
unfoldable pub addr_lt : Addr → Addr → Bool
addr_lt invalid invalid = false
addr_lt invalid b = true
addr_lt (v4 a) (v4 b) = ltb a b
addr_lt (v4 a) (v6 b) = true
addr_lt (v4 a) invalid = false
addr_lt (v6 a) (v6 b) = ltb a b
addr_lt (v6 a) b = false

abbrev pub insert_addr : Addr → List Addr → List Addr
insert_addr a [] = a ∷ []
insert_addr a (b ∷ bs) = let rest = insert_addr a bs in if addr_lt b a then b ∷ rest else a ∷ b ∷ bs

-- slices.SortFunc by Compare
unfoldable pub sort_addrs : List Addr → List Addr
sort_addrs [] = []
sort_addrs (a ∷ bs) = insert_addr a (sort_addrs bs)

-- the test of the VPC's block
unfoldable pub valid_block : Prefix → Bool
unfolding prefix_valid is4 masked prefix_eq bits
valid_block p = not (
    not (prefix_valid p)
    || not (is4 p.addr)
    || not (prefix_eq (masked p) p)
    || ltb (bits p) 16
    || ltb 28 (bits p))

-- the test of a subnet's block
unfoldable pub valid_range : Vpc → Subnet → Bool
unfolding prefix_valid is4 masked prefix_eq bits contains
valid_range v s = not (
    not (str_eq s.vpc_id v.id)
    || not (prefix_valid s.cidr_block)
    || not (is4 s.cidr_block.addr)
    || not (prefix_eq (masked s.cidr_block) s.cidr_block)
    || ltb (bits s.cidr_block) (bits v.cidr_block)
    || ltb 28 (bits s.cidr_block)
    || not (contains v.cidr_block s.cidr_block.addr))

abbrev pub gateway_then : Addr → Result Error (List Addr) → Result Error (List Addr)
gateway_then a (err e) = err e
gateway_then a (ok gateways) = ok (a ∷ gateways)

-- `for i := range subnets`, with the blocks of the subnets before
unfoldable pub collect_gateways : Vpc → List Prefix → List Subnet → Result Error (List Addr)
unfolding next
collect_gateways v seen [] = ok []
collect_gateways v seen (s ∷ subnets) =
    let rest = collect_gateways v (seen ++ s.cidr_block ∷ []) subnets in
    if not (valid_range v s)
    then err failure
    else if any (prefix_overlaps s.cidr_block) seen
    then err failure
    else gateway_then (next s.cidr_block.addr) rest

abbrev pub sorted_gateways : Result Error (List Addr) → Result Error (List Addr)
sorted_gateways (err e) = err e
sorted_gateways (ok gateways) = ok (sort_addrs gateways)

-- desiredGateways
unfoldable pub desired_gateways : Vpc → List Subnet → Result Error (List Addr)
desired_gateways v subnets =
    if not (valid_block v.cidr_block)
    then err failure
    else sorted_gateways (collect_gateways v [] subnets)
