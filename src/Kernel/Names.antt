-- ===== src/Kernel/Names.antt =====
-- Names of kernel objects made from an index of the database: internal/network/netns (Name,
-- validateName), internal/reconcile/network.go (ownedIndex) and
-- internal/network/topology/eni_policy_linux.go (eniLinkName, canonicalENILink).
pub mod RoundTrip
use nephos.Base.{
  ℕ, Bool, true, false, not, ◌&&◌, ◌||◌, ◌++◌, Option, none, some, Str, codes, str_eq, cut_prefix,
  length, leb, ltb, if◌then◌else◌, Result, ok, err, ◌>>=◌,
}
use nephos.Kernel.Decimals.{ℤ, pos, negsuc, format_int, parse_int}

-- `low <= index && index <= high` on an int64, for positive bounds
abbrev pub index_between : ℕ → ℕ → ℤ → Bool
index_between low high (pos n) = leb low n && leb n high
index_between low high (negsuc n) = false

-- `prefix + strconv.FormatInt(index, 10)`, if the index is in 1..max
unfoldable pub indexed_name : Str → ℕ → ℤ → Option Str
indexed_name prefix max index =
    if index_between 1 max index then some (prefix ++ format_int index) else none

abbrev pub vpc_prefix : Str
vpc_prefix = codes "nx-vpc-"

abbrev pub max_index : ℕ
max_index = 99999999

-- Name
abbrev pub vpc_name : ℤ → Option Str
vpc_name = indexed_name vpc_prefix max_index

-- `canonical, err := Name(index); err == nil && canonical == name`
abbrev pub named : Str → Option Str → Bool
named name none = false
named name (some canonical) = str_eq canonical name

abbrev pub names_index : (ℤ → Option Str) → Str → Option ℤ → Bool
names_index name_of name none = false
names_index name_of name (some index) = named name (name_of index)

-- what follows the prefix is an index, and the name is the one of that index
abbrev pub indexed_rest : (ℤ → Option Str) → Str → Option Str → Bool
indexed_rest name_of name none = false
indexed_rest name_of name (some part) = names_index name_of name (parse_int part)

-- validateName, as "there is no error"
unfoldable pub validate_vpc_name : Str → Bool
validate_vpc_name name =
    leb (length name) 15 && indexed_rest vpc_name name (cut_prefix vpc_prefix name)

abbrev pub owned_parsed : Str → Option ℤ → Option ℤ
owned_parsed name none = none
owned_parsed name (some index) = if named name (vpc_name index) then some index else none

abbrev pub owned_part : Str → Option Str → Option ℤ
owned_part name none = none
owned_part name (some part) = owned_parsed name (parse_int part)

-- ownedIndex; `none` where the source returns false
unfoldable pub owned_index : Str → Option ℤ
owned_index name = owned_part name (cut_prefix (codes "nx-vpc-") name)

-- eniLinkName
abbrev pub eni_link_name : ℤ → Option Str
eni_link_name = indexed_name (codes "ve") 9999999999999

-- canonicalENILink
unfoldable pub canonical_eni_link : Str → Bool
canonical_eni_link name = indexed_rest eni_link_name name (cut_prefix (codes "ve") name)
