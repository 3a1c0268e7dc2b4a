-- ===== src/Store/Resources.antt =====
-- internal/store/resources.go: VPC and subnet snapshots read from their rows.
use nephos.Base.{ℕ, Option, none, some, List, [], ◌∷◌, if◌then◌else◌, Str, Result, ok, err}
use nephos.Netip.{Prefix, is4}
use nephos.Netip.Text.{parse_prefix, print_prefix}
use nephos.Model.{Vpc, Subnet}
use nephos.Errors.{Error, failure}
use nephos.Store.Tables.{VpcRow, SubnetRow}
use nephos.Store.Tx.{Tx, reading, gets, ◌>>=◌, ◌>>◌}
use nephos.Store.Vpcs.{
  insert_index, insert_vpc, new_vpc_row, get_vpc_row, get_vpc_row_by_name, list_vpc_page_rows,
  mark_vpc_deleting_row,
}
use nephos.Store.Subnets.{
  insert_subnet, new_subnet_row, get_subnet_row, get_subnet_row_by_name, list_subnet_page_rows,
  list_subnet_rows_by_vpc, mark_subnet_deleting_row,
}

-- the block of a row, or a report of corruption
abbrev pub block_of : Option Prefix → Result Error Prefix
unfolding is4
block_of none = err failure
block_of (some p) = if is4 p.addr then ok p else err failure

abbrev pub vpc_of : VpcRow → Result Error Prefix → Result Error Vpc
vpc_of row (err e) = err e
vpc_of row (ok p) = ok (record {
  id = row.id;
  workspace_id = row.workspace_id;
  name = row.name;
  cidr_block = p;
  short_index = row.short_index;
  state = row.state;
  state_reason = row.state_reason;
  deletion_requested = row.deletion_requested;
  generation = row.generation;
  observed_generation = row.observed_generation;
})

-- vpcFromRow
unfoldable pub vpc_from_row : VpcRow → Result Error Vpc
vpc_from_row row = vpc_of row (block_of (parse_prefix row.cidr_block))

abbrev pub subnet_of : SubnetRow → Result Error Prefix → Result Error Subnet
subnet_of row (err e) = err e
subnet_of row (ok p) = ok (record {
  id = row.id;
  workspace_id = row.workspace_id;
  vpc_id = row.vpc_id;
  name = row.name;
  cidr_block = p;
  availability_zone = row.availability_zone;
  short_index = row.short_index;
  state = row.state;
  state_reason = row.state_reason;
  deletion_requested = row.deletion_requested;
  generation = row.generation;
  observed_generation = row.observed_generation;
})

-- subnetFromRow
unfoldable pub subnet_from_row : SubnetRow → Result Error Subnet
subnet_from_row row = subnet_of row (block_of (parse_prefix row.cidr_block))

module _ {B : Type 0} where
  abbrev pub push_item : Result Error B → Result Error (List B) → Result Error (List B)
  push_item (err e) rest = err e
  push_item (ok b) (err e) = err e
  push_item (ok b) (ok bs) = ok (b ∷ bs)

module _ {A B : Type 0} where
  -- `for i := range rows { item, err := f(rows[i]) … items = append(items, item) }`
  unfoldable pub read_rows : (A → Result Error B) → List A → Result Error (List B)
  read_rows f [] = ok []
  read_rows f (r ∷ rows) = push_item (f r) (read_rows f rows)

-- AllocateIndex
unfoldable pub allocate_index : Str → Str → Tx ℕ
allocate_index kind resource_id = insert_index kind resource_id

-- InsertVPC
unfoldable pub insert_vpc_model : Vpc → ℕ → Tx (Unit {0})
insert_vpc_model v now =
    insert_vpc
      (new_vpc_row v.id v.workspace_id v.short_index v.name (print_prefix v.cidr_block) now)

-- InsertSubnet
unfoldable pub insert_subnet_model : Subnet → ℕ → Tx (Unit {0})
insert_subnet_model s now = insert_subnet (
    new_subnet_row s.id s.workspace_id s.vpc_id s.short_index s.name (print_prefix s.cidr_block)
      s.availability_zone now)

-- GetVPC, of the store and of a transaction
unfoldable pub get_vpc : Str → Str → Tx Vpc
get_vpc workspace id = do row ← get_vpc_row id workspace; reading (vpc_from_row row)

-- GetVPCByName
unfoldable pub get_vpc_by_name : Str → Str → Tx Vpc
get_vpc_by_name workspace name = do
  row ← get_vpc_row_by_name workspace name
  reading (vpc_from_row row)

-- ListVPCPage
unfoldable pub list_vpc_page : Str → Str → ℕ → Tx (List Vpc)
list_vpc_page workspace after limit = do
  rows ← gets (list_vpc_page_rows workspace after limit)
  reading (read_rows vpc_from_row rows)

-- GetSubnet, of the store and of a transaction
unfoldable pub get_subnet : Str → Str → Tx Subnet
get_subnet workspace id = do row ← get_subnet_row id workspace; reading (subnet_from_row row)

-- GetSubnetByName
unfoldable pub get_subnet_by_name : Str → Str → Tx Subnet
get_subnet_by_name workspace name = do
  row ← get_subnet_row_by_name workspace name
  reading (subnet_from_row row)

-- ListSubnetPage
unfoldable pub list_subnet_page : Str → Str → ℕ → Tx (List Subnet)
list_subnet_page workspace after limit = do
  rows ← gets (list_subnet_page_rows workspace after limit)
  reading (read_rows subnet_from_row rows)

-- ListSubnetsByVPC, of the store and of a transaction
unfoldable pub list_subnets_by_vpc : Str → Tx (List Subnet)
list_subnets_by_vpc vpc = do
  rows ← gets (list_subnet_rows_by_vpc vpc)
  reading (read_rows subnet_from_row rows)

-- MarkVPCDeleting
unfoldable pub mark_vpc_deleting : Str → Str → ℕ → Tx Vpc
mark_vpc_deleting workspace id now = do mark_vpc_deleting_row now id workspace; get_vpc workspace id

-- MarkSubnetDeleting
unfoldable pub mark_subnet_deleting : Str → Str → ℕ → Tx Subnet
mark_subnet_deleting workspace id now = do
  mark_subnet_deleting_row now id workspace
  get_subnet workspace id
