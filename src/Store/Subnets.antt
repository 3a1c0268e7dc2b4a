-- ===== src/Store/Subnets.antt =====
-- internal/store/sqlc: the statements on the table subnets.
use nephos.Base.{
  ℕ, ◌+◌, Bool, true, false, not, ◌&&◌, ◌||◌, List, [], ltb, ◌==◌, if◌then◌else◌, length, take,
  keep, find_first, any, update_where, Str, codes, str_eq, str_lt, ok, err,
}
use nephos.Model.{State}
use nephos.Errors.{primary_key_violation, unique_violation, foreign_key_violation, check_violation}
use nephos.Store.Tables.{Db, SubnetRow, insert_by, same_key}
use nephos.Store.Tx.{Tx, one_row}
use nephos.Store.Vpcs.{name_fits, index_exists, workspace_exists, vpc_key}

abbrev pub new_subnet_row : Str → Str → Str → ℕ → Str → Str → Str → ℕ → SubnetRow
new_subnet_row id workspace vpc index name cidr zone now = record {
  id = id;
  workspace_id = workspace;
  vpc_id = vpc;
  short_index = index;
  name = name;
  cidr_block = cidr;
  availability_zone = zone;
  generation = 1;
  observed_generation = 0;
  state = State.pending;
  state_reason = [];
  created_at = now;
  updated_at = now;
  deletion_requested = false;
}

abbrev pub known_zone : Str → Bool
known_zone z =
    str_eq z (codes "local-1a") || (str_eq z (codes "local-1b") || str_eq z (codes "local-1c"))

abbrev pub subnet_taken : SubnetRow → List SubnetRow → Bool
subnet_taken row = any (λ r.
    r.short_index == row.short_index || same_key row.name row.workspace_id r.name r.workspace_id)

-- InsertSubnet
unfoldable pub insert_subnet : SubnetRow → Tx (Unit {0})
insert_subnet row db =
    if not (name_fits row.name) || not (known_zone row.availability_zone)
    then err check_violation
    else if any (λ r. str_eq r.id row.id) db.subnets
    then err primary_key_violation
    else if subnet_taken row db.subnets
    then err unique_violation
    else if not (workspace_exists row.workspace_id db)
        || not (index_exists row.short_index db)
        || not (any (vpc_key row.vpc_id row.workspace_id) db.vpcs)
    then err foreign_key_violation
    else ok (tt, record db { subnets = insert_by (λ r. r.id) row db.subnets })

abbrev pub subnet_key : Str → Str → SubnetRow → Bool
subnet_key id workspace r = same_key id workspace r.id r.workspace_id

-- GetSubnet
unfoldable pub get_subnet_row : Str → Str → Tx SubnetRow
get_subnet_row id workspace db = one_row (find_first (subnet_key id workspace) db.subnets) db

-- GetSubnetByName
unfoldable pub get_subnet_row_by_name : Str → Str → Tx SubnetRow
get_subnet_row_by_name workspace name db =
    one_row (find_first (λ r. same_key name workspace r.name r.workspace_id) db.subnets) db

-- ListSubnetPage
unfoldable pub list_subnet_page_rows : Str → Str → ℕ → Db → List SubnetRow
list_subnet_page_rows workspace after limit db =
    take limit (keep (λ r. str_eq workspace r.workspace_id && str_lt after r.id) db.subnets)

-- ListSubnetsByVPC
unfoldable pub list_subnet_rows_by_vpc : Str → Db → List SubnetRow
list_subnet_rows_by_vpc vpc db = keep (λ r. str_eq vpc r.vpc_id) db.subnets

-- UpdateSubnetStatus
unfoldable pub update_subnet_status : State → Str → ℕ → ℕ → Str → Str → Tx (Unit {0})
update_subnet_status state reason observed now id workspace db =
    if any (λ r. subnet_key id workspace r && ltb r.generation observed) db.subnets
    then err check_violation
    else ok (
      tt,
      record db {
        subnets =
            update_where (subnet_key id workspace)
              (λ r. record r {
                state = state;
                state_reason = reason;
                observed_generation = observed;
                updated_at = now;
              })
              db.subnets;
      },
    )

-- MarkSubnetDeleting
unfoldable pub mark_subnet_deleting_row : ℕ → Str → Str → Tx (Unit {0})
mark_subnet_deleting_row now id workspace db = ok (
  tt,
  record db {
    subnets =
        update_where (λ r. subnet_key id workspace r && not r.deletion_requested)
          (λ r. record r {
            state = State.deleting;
            state_reason = [];
            deletion_requested = true;
            generation = r.generation + 1;
            updated_at = now;
          })
          db.subnets;
  },
)

-- DeleteSubnet; instances and enis reference (id, workspace_id) ON DELETE RESTRICT
unfoldable pub delete_subnet_row : Str → Str → Tx (Unit {0})
delete_subnet_row id workspace db =
    if any (subnet_key id workspace) db.subnets
      && (any (λ r. same_key id workspace r.subnet_id r.workspace_id) db.instances
          || any (λ r. same_key id workspace r.subnet_id r.workspace_id) db.enis)
    then err foreign_key_violation
    else ok (tt, record db { subnets = keep (λ r. not (subnet_key id workspace r)) db.subnets })

-- CountInstancesInSubnet
unfoldable pub count_instances_in_subnet : Str → Db → ℕ
count_instances_in_subnet subnet db = length (keep (λ r. str_eq subnet r.subnet_id) db.instances)
