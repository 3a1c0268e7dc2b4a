-- ===== src/Store/Instances.antt =====
-- internal/store/sqlc: the statements on the tables instances and enis.
pub mod Runtime
use nephos.Base.{
  ℕ, zero, suc, ◌+◌, Bool, true, false, not, ◌&&◌, ◌||◌, Option, none, some, List, [], map, ltb,
  ◌==◌, if◌then◌else◌, length, take, keep, find_first, any, update_where, Str, str_eq, str_lt, ok,
  err,
}
use nephos.Model.{State, InstanceState}
use nephos.Errors.{
  Error, primary_key_violation, unique_violation, foreign_key_violation, check_violation,
}
use nephos.Store.Tables.{Db, InstanceRow, EniRow, insert_by, same_key}
use nephos.Store.Tx.{Tx, one_row}
use nephos.Store.Vpcs.{name_fits, index_exists, workspace_exists}
use nephos.Store.Subnets.{subnet_key}

abbrev pub new_instance_row : Str → Str → Str → ℕ → Str → ℕ → InstanceRow
new_instance_row id workspace subnet index name now = record {
  id = id;
  workspace_id = workspace;
  subnet_id = subnet;
  short_index = index;
  name = name;
  generation = 1;
  observed_generation = 0;
  state = InstanceState.pending;
  state_reason = [];
  created_at = now;
  updated_at = now;
  deletion_requested = false;
  runtime_id = none;
}

abbrev pub instance_taken : InstanceRow → List InstanceRow → Bool
instance_taken row = any (λ r.
    r.short_index == row.short_index || same_key row.name row.workspace_id r.name r.workspace_id)

-- InsertInstance
unfoldable pub insert_instance : InstanceRow → Tx (Unit {0})
insert_instance row db =
    if not (name_fits row.name)
    then err check_violation
    else if any (λ r. str_eq r.id row.id) db.instances
    then err primary_key_violation
    else if instance_taken row db.instances
    then err unique_violation
    else if not (workspace_exists row.workspace_id db)
        || not (index_exists row.short_index db)
        || not (any (subnet_key row.subnet_id row.workspace_id) db.subnets)
    then err foreign_key_violation
    else ok (tt, record db { instances = insert_by (λ r. r.id) row db.instances })

abbrev pub new_eni_row : Str → Str → Str → Str → ℕ → Str → Str → ℕ → EniRow
new_eni_row id workspace instance_id subnet index ip mac now = record {
  id = id;
  workspace_id = workspace;
  instance_id = instance_id;
  subnet_id = subnet;
  short_index = index;
  private_ip = ip;
  mac_address = mac;
  generation = 1;
  observed_generation = 0;
  state = State.pending;
  state_reason = [];
  created_at = now;
  updated_at = now;
}

abbrev pub instance_key : Str → Str → InstanceRow → Bool
instance_key id workspace r = same_key id workspace r.id r.workspace_id

-- UNIQUE of short_index, mac_address, (subnet_id, private_ip) and instance_id
abbrev pub eni_taken : EniRow → List EniRow → Bool
eni_taken row = any (λ r.
    r.short_index == row.short_index
    || (str_eq r.mac_address row.mac_address
        || (same_key row.subnet_id row.private_ip r.subnet_id r.private_ip
            || str_eq r.instance_id row.instance_id)))

-- InsertENI
unfoldable pub insert_eni : EniRow → Tx (Unit {0})
insert_eni row db =
    if any (λ r. str_eq r.id row.id) db.enis
    then err primary_key_violation
    else if eni_taken row db.enis
    then err unique_violation
    else if not (workspace_exists row.workspace_id db)
        || not (index_exists row.short_index db)
        || not (any (instance_key row.instance_id row.workspace_id) db.instances)
        || not (any (subnet_key row.subnet_id row.workspace_id) db.subnets)
    then err foreign_key_violation
    else ok (tt, record db { enis = insert_by (λ r. r.id) row db.enis })

-- GetInstance
unfoldable pub get_instance_row : Str → Str → Tx InstanceRow
get_instance_row id workspace db = one_row (find_first (instance_key id workspace) db.instances) db

-- GetInstanceByName
unfoldable pub get_instance_row_by_name : Str → Str → Tx InstanceRow
get_instance_row_by_name workspace name db =
    one_row (find_first (λ r. same_key name workspace r.name r.workspace_id) db.instances) db

-- GetPrimaryENI
unfoldable pub get_primary_eni : Str → Str → Tx EniRow
get_primary_eni instance_id workspace db =
    one_row (find_first (λ r. same_key instance_id workspace r.instance_id r.workspace_id) db.enis)
      db

-- ListInstancePage
unfoldable pub list_instance_page_rows : Str → Str → ℕ → Db → List InstanceRow
list_instance_page_rows workspace after limit db =
    take limit (keep (λ r. str_eq workspace r.workspace_id && str_lt after r.id) db.instances)

-- ListENIAddresses; the only caller makes a set of them, so their order is not kept
unfoldable pub list_eni_addresses : Str → Db → List Str
list_eni_addresses subnet db =
    map (λ r. r.private_ip) (keep (λ r. str_eq subnet r.subnet_id) db.enis)

-- MarkInstanceTerminating
unfoldable pub mark_instance_terminating_row : ℕ → Str → Str → Tx (Unit {0})
mark_instance_terminating_row now id workspace db = ok (
  tt,
  record db {
    instances =
        update_where (λ r. instance_key id workspace r && not r.deletion_requested)
          (λ r. record r {
            state = InstanceState.shutting_down;
            state_reason = [];
            deletion_requested = true;
            generation = r.generation + 1;
            updated_at = now;
          })
          db.instances;
  },
)

abbrev pub unset_or : Str → Option Str → Bool
unset_or runtime none = true
unset_or runtime (some r) = str_eq runtime r

abbrev pub is_unset : Option Str → Bool
is_unset none = true
is_unset (some r) = false

abbrev pub set_runtime : Str → InstanceRow → InstanceRow
set_runtime runtime r = record r { runtime_id = some runtime }

abbrev pub records_runtime : Str → ℕ → Str → InstanceRow → Bool
records_runtime id generation runtime r =
    str_eq id r.id
    && (generation == r.generation)
    && (not r.deletion_requested && unset_or runtime r.runtime_id)

-- RecordRuntimeID, with the number of rows that it changed
unfoldable pub record_runtime_id_rows : Str → Str → ℕ → Tx ℕ
record_runtime_id_rows runtime id generation db =
    let test = records_runtime id generation runtime in
    ok (
      length (keep test db.instances),
      record db { instances = update_where test (set_runtime runtime) db.instances },
    )

abbrev pub retains_runtime : Str → InstanceRow → Bool
retains_runtime id r = str_eq id r.id && (r.deletion_requested && is_unset r.runtime_id)

-- RetainTerminatingRuntimeID, with the number of rows that it changed
unfoldable pub retain_terminating_runtime_id_rows : Str → Str → Tx ℕ
retain_terminating_runtime_id_rows runtime id db = ok (
  length (keep (retains_runtime id) db.instances),
  record db { instances = update_where (retains_runtime id) (set_runtime runtime) db.instances },
)

-- UpdateInstanceStatus
unfoldable pub update_instance_status : InstanceState → Str → ℕ → ℕ → Str → Str → Tx (Unit {0})
update_instance_status state reason observed now id workspace db =
    if any (λ r. instance_key id workspace r && ltb r.generation observed) db.instances
    then err check_violation
    else ok (
      tt,
      record db {
        instances =
            update_where (instance_key id workspace)
              (λ r. record r {
                state = state;
                state_reason = reason;
                observed_generation = observed;
                updated_at = now;
              })
              db.instances;
      },
    )

abbrev pub eni_key : Str → Str → EniRow → Bool
eni_key id workspace r = same_key id workspace r.id r.workspace_id

-- UpdateInstanceENIStatus
unfoldable pub update_instance_eni_status : State → Str → ℕ → ℕ → Str → Str → Tx (Unit {0})
update_instance_eni_status state reason observed now id workspace db =
    if any (λ r. eni_key id workspace r && ltb r.generation observed) db.enis
    then err check_violation
    else ok (
      tt,
      record db {
        enis =
            update_where (eni_key id workspace)
              (λ r. record r {
                state = state;
                state_reason = reason;
                observed_generation = observed;
                updated_at = now;
              })
              db.enis;
      },
    )

-- DeleteInstanceENI
unfoldable pub delete_instance_eni : Str → Str → Tx (Unit {0})
delete_instance_eni id workspace db =
    ok (tt, record db { enis = keep (λ r. not (eni_key id workspace r)) db.enis })

-- DeleteInstance; enis reference (id, workspace_id) ON DELETE RESTRICT
unfoldable pub delete_instance_row : Str → Str → Tx (Unit {0})
delete_instance_row id workspace db =
    if any (instance_key id workspace) db.instances
      && any (λ r. same_key id workspace r.instance_id r.workspace_id) db.enis
    then err foreign_key_violation
    else ok
        (tt, record db { instances = keep (λ r. not (instance_key id workspace r)) db.instances })
