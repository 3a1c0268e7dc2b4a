-- ===== src/Store/Leases.antt =====
-- internal/store/instances.go: instances with their primary ENI, and the runtime identity.
use nephos.Base.{
  ℕ, ◌%◌, not, ◌||◌, Option, none, some, List, [], ◌∷◌, ◌==◌, if◌then◌else◌, length, Str, codes,
  str_eq, Result, ok, err,
}
use nephos.Netip.{Addr, is4}
use nephos.Netip.Text.{parse_addr, print_addr}
use nephos.Netmac.{parse_mac}
use nephos.Model.{Instance, Eni}
use nephos.Errors.{Error, failure, stale_snapshot}
use nephos.Store.Resources.{push_item}
use nephos.Store.Tables.{Db, InstanceRow, EniRow}
use nephos.Store.Tx.{Tx, pure, fail, reading, gets, with_tx, ◌>>=◌, ◌>>◌}
use nephos.Store.Instances.{
  insert_instance, new_instance_row, insert_eni, new_eni_row, get_instance_row,
  get_instance_row_by_name, get_primary_eni, list_instance_page_rows, list_eni_addresses,
  mark_instance_terminating_row, record_runtime_id_rows, retain_terminating_runtime_id_rows,
}

-- `mac[0] & 3 == 2`, in six octets
abbrev pub local_unicast : Option Str → Result Error Str
local_unicast none = err failure
local_unicast (some []) = err failure
local_unicast (some (b ∷ mac)) =
    if not (length (b ∷ mac) == 6) || not (b % 4 == 2) then err failure else ok (b ∷ mac)

-- validENIMAC
unfoldable pub valid_eni_mac : Str → Result Error Str
valid_eni_mac raw = local_unicast (parse_mac raw)

-- InsertInstanceWithENI
unfoldable pub insert_instance_with_eni : Instance → Eni → ℕ → Tx (Unit {0})
unfolding is4
insert_instance_with_eni i e now =
    if not (str_eq e.instance_id i.id)
      || not (str_eq e.subnet_id i.subnet_id)
      || not (str_eq e.workspace_id i.workspace_id)
    then fail failure
    else if not (is4 e.private_ip)
    then fail failure
    else do
      mac ← reading (valid_eni_mac e.mac_address)
      insert_instance (new_instance_row i.id i.workspace_id i.subnet_id i.short_index i.name now)
      insert_eni (
          new_eni_row e.id e.workspace_id e.instance_id e.subnet_id e.short_index
            (print_addr e.private_ip) e.mac_address now)

abbrev pub address_of : Option Addr → Result Error Addr
unfolding is4
address_of none = err failure
address_of (some a) = if is4 a then ok a else err failure

abbrev pub runtime_text : Option Str → Str
runtime_text none = []
runtime_text (some r) = r

abbrev pub instance_of : InstanceRow → EniRow → Addr → Instance
instance_of row eni address = record {
  id = row.id;
  workspace_id = row.workspace_id;
  subnet_id = row.subnet_id;
  short_index = row.short_index;
  name = row.name;
  instance_type = codes "t3.micro";
  state = row.state;
  state_reason = row.state_reason;
  generation = row.generation;
  observed_generation = row.observed_generation;
  deletion_requested = row.deletion_requested;
  runtime_id = runtime_text row.runtime_id;
  eni = record {
    id = eni.id;
    workspace_id = eni.workspace_id;
    instance_id = eni.instance_id;
    subnet_id = eni.subnet_id;
    short_index = eni.short_index;
    private_ip = address;
    mac_address = eni.mac_address;
    generation = eni.generation;
    observed_generation = eni.observed_generation;
    state = eni.state;
    state_reason = eni.state_reason;
  };
}

-- instanceFromRow
unfoldable pub instance_from_row : InstanceRow → Tx Instance
instance_from_row row = do
  eni ← get_primary_eni row.id row.workspace_id
  address ← reading (address_of (parse_addr eni.private_ip))
  mac ← reading (valid_eni_mac eni.mac_address)
  pure (instance_of row eni address)

-- GetInstance, of a transaction
unfoldable pub get_instance : Str → Str → Tx Instance
get_instance workspace id = do row ← get_instance_row id workspace; instance_from_row row

-- GetInstance, of the store
unfoldable pub store_get_instance : Str → Str → Db → Result Error Instance × Db
store_get_instance workspace id = with_tx (get_instance workspace id)

-- GetInstanceByName
unfoldable pub get_instance_by_name : Str → Str → Tx Instance
get_instance_by_name workspace name = do
  row ← get_instance_row_by_name workspace name
  instance_from_row row

-- the loop of ListInstancePage
unfoldable pub instances_from_rows : List InstanceRow → Tx (List Instance)
instances_from_rows [] = pure []
instances_from_rows (r ∷ rows) =
    instance_from_row r >>= λ i. instances_from_rows rows >>= λ is. pure (i ∷ is)

-- ListInstancePage
unfoldable pub list_instance_page : Str → Str → ℕ → Db → Result Error (List Instance) × Db
list_instance_page workspace after limit =
    with_tx (gets (list_instance_page_rows workspace after limit) >>= instances_from_rows)

-- the loop of ENIAddresses; a set is the list of its members
unfoldable pub read_addresses : List Str → Result Error (List Addr)
read_addresses [] = ok []
read_addresses (raw ∷ rows) = push_item (address_of (parse_addr raw)) (read_addresses rows)

-- ENIAddresses
unfoldable pub eni_addresses : Str → Tx (List Addr)
eni_addresses subnet = do rows ← gets (list_eni_addresses subnet); reading (read_addresses rows)

-- MarkInstanceTerminating
unfoldable pub mark_instance_terminating : Str → Str → ℕ → Tx (Unit {0})
mark_instance_terminating workspace id now = mark_instance_terminating_row now id workspace

-- `if err != nil { return err }; if count != 1 { return ErrStaleSnapshot }`
abbrev pub changed_one : Db → Result Error (ℕ × Db) → Result Error (Unit {0}) × Db
changed_one db (err e) = (err e, db)
changed_one db (ok (n, db')) = (if n == 1 then ok tt else err stale_snapshot, db')

-- RecordRuntimeID: an empty ID is refused, and a count other than one is a stale snapshot. The
-- statement stands alone, and what it has changed stays changed.
unfoldable pub record_runtime_id : Str → ℕ → Str → Db → Result Error (Unit {0}) × Db
record_runtime_id instance_id generation [] db = (err failure, db)
record_runtime_id instance_id generation (c ∷ runtime) db =
    changed_one db (record_runtime_id_rows (c ∷ runtime) instance_id generation db)

-- RetainTerminatingRuntimeID of internal/store/instance_reconcile.go
unfoldable pub retain_terminating_runtime_id : Str → Str → Db → Result Error (Unit {0}) × Db
retain_terminating_runtime_id instance_id [] db = (err failure, db)
retain_terminating_runtime_id instance_id (c ∷ runtime) db =
    changed_one db (retain_terminating_runtime_id_rows (c ∷ runtime) instance_id db)
