-- ===== src/Store/Vpcs.antt =====
-- internal/store/sqlc: the statements on the table vpcs, and on kernel_indexes.
use nephos.Base.{
  ℕ, ◌+◌, Bool, true, false, not, ◌&&◌, ◌||◌, List, [], ◌∷◌, ◌++◌, ltb, leb, ◌==◌, if◌then◌else◌,
  take, keep, find_first, any, update_where, Str, str_eq, str_lt, ok, err,
}
use nephos.Model.{State}
use nephos.Errors.{primary_key_violation, unique_violation, foreign_key_violation, check_violation}
use nephos.Store.Tables.{Db, VpcRow, insert_by, same_key}
use nephos.Store.Tx.{Tx, one_row}

-- SQLite's length() of a text counts its characters: the bytes that continue none
abbrev pub sqlite_length : Str → ℕ
sqlite_length [] = 0
sqlite_length (c ∷ s) =
    let rest = sqlite_length s in if leb 128 c && ltb c 192 then rest else rest + 1

-- CHECK (length(name) BETWEEN 1 AND 255)
abbrev pub name_fits : Str → Bool
name_fits name = leb 1 (sqlite_length name) && leb (sqlite_length name) 255

abbrev pub index_exists : ℕ → Db → Bool
index_exists i db = any (λ r. r.id == i) db.kernel_indexes

abbrev pub workspace_exists : Str → Db → Bool
workspace_exists w db = any (str_eq w) db.workspaces

-- INSERT INTO kernel_indexes, and the rowid that AUTOINCREMENT chose
unfoldable pub insert_index : Str → Str → Tx ℕ
insert_index kind resource_id db =
    if any (λ r. str_eq r.resource_id resource_id) db.kernel_indexes
    then err unique_violation
    else let id = db.last_index + 1 in
      ok (
        id,
        record db {
          kernel_indexes =
              db.kernel_indexes
              ++ record { id = id; resource_kind = kind; resource_id = resource_id } ∷ [];
          last_index = id;
        },
      )

-- the row that InsertVPC's columns and the defaults of the table make
abbrev pub new_vpc_row : Str → Str → ℕ → Str → Str → ℕ → VpcRow
new_vpc_row id workspace index name cidr now = record {
  id = id;
  workspace_id = workspace;
  short_index = index;
  name = name;
  cidr_block = cidr;
  generation = 1;
  observed_generation = 0;
  state = State.pending;
  state_reason = [];
  created_at = now;
  updated_at = now;
  deletion_requested = false;
}

-- UNIQUE (short_index), UNIQUE (workspace_id, name)
abbrev pub vpc_taken : VpcRow → List VpcRow → Bool
vpc_taken row = any (λ r.
    r.short_index == row.short_index || same_key row.name row.workspace_id r.name r.workspace_id)

-- InsertVPC
unfoldable pub insert_vpc : VpcRow → Tx (Unit {0})
insert_vpc row db =
    if not (name_fits row.name)
    then err check_violation
    else if any (λ r. str_eq r.id row.id) db.vpcs
    then err primary_key_violation
    else if vpc_taken row db.vpcs
    then err unique_violation
    else if not (workspace_exists row.workspace_id db) || not (index_exists row.short_index db)
    then err foreign_key_violation
    else ok (tt, record db { vpcs = insert_by (λ r. r.id) row db.vpcs })

abbrev pub vpc_key : Str → Str → VpcRow → Bool
vpc_key id workspace r = same_key id workspace r.id r.workspace_id

-- GetVPC
unfoldable pub get_vpc_row : Str → Str → Tx VpcRow
get_vpc_row id workspace db = one_row (find_first (vpc_key id workspace) db.vpcs) db

-- GetVPCByName
unfoldable pub get_vpc_row_by_name : Str → Str → Tx VpcRow
get_vpc_row_by_name workspace name db =
    one_row (find_first (λ r. same_key name workspace r.name r.workspace_id) db.vpcs) db

-- ListVPCPage
unfoldable pub list_vpc_page_rows : Str → Str → ℕ → Db → List VpcRow
list_vpc_page_rows workspace after limit db =
    take limit (keep (λ r. str_eq workspace r.workspace_id && str_lt after r.id) db.vpcs)

-- UpdateVPCStatus
unfoldable pub update_vpc_status : State → Str → ℕ → ℕ → Str → Str → Tx (Unit {0})
update_vpc_status state reason observed now id workspace db =
    if any (λ r. vpc_key id workspace r && ltb r.generation observed) db.vpcs
    then err check_violation
    else ok (
      tt,
      record db {
        vpcs =
            update_where (vpc_key id workspace)
              (λ r. record r {
                state = state;
                state_reason = reason;
                observed_generation = observed;
                updated_at = now;
              })
              db.vpcs;
      },
    )

-- MarkVPCDeleting
unfoldable pub mark_vpc_deleting_row : ℕ → Str → Str → Tx (Unit {0})
mark_vpc_deleting_row now id workspace db = ok (
  tt,
  record db {
    vpcs =
        update_where (λ r. vpc_key id workspace r && not r.deletion_requested)
          (λ r. record r {
            state = State.deleting;
            state_reason = [];
            deletion_requested = true;
            generation = r.generation + 1;
            updated_at = now;
          })
          db.vpcs;
  },
)

-- DeleteVPC; subnets reference (id, workspace_id) ON DELETE RESTRICT
unfoldable pub delete_vpc_row : Str → Str → Tx (Unit {0})
delete_vpc_row id workspace db =
    if any (vpc_key id workspace) db.vpcs
      && any (λ s. same_key id workspace s.vpc_id s.workspace_id) db.subnets
    then err foreign_key_violation
    else ok (tt, record db { vpcs = keep (λ r. not (vpc_key id workspace r)) db.vpcs })
