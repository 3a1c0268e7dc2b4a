-- ===== src/Service/Instances.antt =====
-- internal/service/instance.go: launch and termination of instances. `hash` is hashPayload and
-- `digest` SHA-256.
pub mod Network
pub mod Launch
use nephos.Base.{
  ℕ, zero, suc, ◌+◌, ◌*◌, ◌/◌, Bool, true, false, Option, List, [], ◌∷◌, if◌then◌else◌, take, Str,
  codes, Result, ok, err,
}
use nephos.Netip.{Addr}
use nephos.Netmac.{print_mac}
use nephos.Model.{State, InstanceState, Subnet, Instance, Eni}
use nephos.Errors.{Error, api, failure, incorrect_state, instance_not_found, address_limit_exceeded}
use nephos.Store.Tables.{Db}
use nephos.Store.Tx.{Tx, pure, fail, reading, absent, found_or, with_tx, ◌>>=◌, ◌>>◌}
use nephos.Store.Log.{append_event}
use nephos.Store.Resources.{allocate_index, get_subnet}
use nephos.Store.Leases.{
  get_instance, get_instance_by_name, eni_addresses, insert_instance_with_eni,
  mark_instance_terminating, list_instance_page, store_get_instance,
}
use nephos.Store.Lifecycle.{instance_event, instance_state_text}
use nephos.Service.Names.{validate_name, validate_idempotency_key}
use nephos.Service.Ids.{new_id}
use nephos.Service.Ipam.{IpamError, address_exhausted, not_canonical, out_of_fuel, next_private_ip}
use nephos.Service.Pagination.{page_size, decode_page_token}
use nephos.Service.Idempotency.{
  default_workspace, Codec, Reply, load_replay, save_replay, or_replay, reply_of, checked_reply,
}
use nephos.Service.Network.{name_conflict, no_subnet}
use nephos.Service.Requests.{cut_page, cut_result}

-- instanceNotFound
abbrev pub no_instance : Str → Error
no_instance id = api (record { code = instance_not_found; resource_id = id; status = 404 })

-- incorrectInstanceState
abbrev pub wrong_state : Str → Error
wrong_state id = api (record { code = incorrect_state; resource_id = id; status = 409 })

-- RunInstanceInput
pub record RunInstanceInput : Type 0 where
  pub name : Str
  pub subnet_id : Str

abbrev pub no_address : Str → Error
no_address id = api (record { code = address_limit_exceeded; resource_id = id; status = 409 })

-- the errors of nextPrivateIP as Run reports them
abbrev pub lease_result : Str → Result IpamError Addr → Result Error Addr
lease_result subnet (ok a) = ok a
lease_result subnet (err address_exhausted) = err (no_address subnet)
lease_result subnet (err e) = err failure

-- `digest[:6]` with `mac[0] = (mac[0] & 0xfc) | 0x02`
abbrev pub local_mac : Str → Str
local_mac [] = []
local_mac (b ∷ mac) = (b / 4 * 4 + 2) ∷ take 5 mac

abbrev pub pending_eni : Str → Str → Str → ℕ → Addr → Str → Eni
pending_eni id instance_id subnet index ip mac = record {
  id = id;
  workspace_id = default_workspace;
  instance_id = instance_id;
  subnet_id = subnet;
  short_index = index;
  private_ip = ip;
  mac_address = mac;
  generation = 1;
  observed_generation = 0;
  state = State.pending;
  state_reason = [];
}

abbrev pub pending_instance : Str → Str → Str → ℕ → Eni → Instance
pending_instance id subnet name index eni = record {
  id = id;
  workspace_id = default_workspace;
  subnet_id = subnet;
  short_index = index;
  name = name;
  instance_type = codes "t3.micro";
  state = InstanceState.pending;
  state_reason = [];
  generation = 1;
  observed_generation = 0;
  deletion_requested = false;
  runtime_id = [];
  eni = eni;
}

module _ (digest : Str → Str) where
  -- the reservations and rows of Run, once the address is chosen
  unfoldable pub insert_pending_instance :
      Codec Instance → Str → Str → Str → Str → Addr → Str → Str → ℕ → Tx (Instance × Bool)
  insert_pending_instance codec id eni_id subnet name address key hash now = do
    index ← allocate_index (codes "instance") id
    eni_index ← allocate_index (codes "eni") eni_id
    let mac = print_mac (local_mac (digest eni_id))
    let eni = pending_eni eni_id id subnet eni_index address mac
    let result = pending_instance id subnet name index eni
    insert_instance_with_eni result eni now
    append_event
        (instance_event result (codes "created") (instance_state_text result.state) 1 [] now)
    save_replay codec (codes "run-instance") key hash id result now
    pure (result, true)

  -- Run in a subnet that is not being deleted
  unfoldable pub lease_and_insert :
      Codec Instance → Str → Str → Subnet → Str → Str → Str → ℕ → Tx (Instance × Bool)
  lease_and_insert codec id eni_id subnet name key hash now = do
    absent (get_instance_by_name default_workspace name) name_conflict
    used ← eni_addresses subnet.id
    address ← reading (lease_result subnet.id (next_private_ip subnet.cidr_block used))
    insert_pending_instance codec id eni_id subnet.id name address key hash now

  -- Run, when the key is new
  unfoldable pub launch :
      Codec Instance → Str → Str → RunInstanceInput → Str → Str → Str → ℕ → Tx (Instance × Bool)
  launch codec id eni_id input name key hash now = do
    subnet ← found_or (get_subnet default_workspace input.subnet_id) (no_subnet input.subnet_id)
    if subnet.deletion_requested
        then fail (wrong_state subnet.id)
        else lease_and_insert codec id eni_id subnet name key hash now

  -- the transaction of Run
  unfoldable pub run_tx :
      Codec Instance → Str → Str → RunInstanceInput → Str → Str → Str → ℕ → Tx (Instance × Bool)
  run_tx codec id eni_id input name key hash now = do
    replay ← load_replay codec (codes "run-instance") key hash now
    or_replay replay (launch codec id eni_id input name key hash now)

module _ (hash : List Str → Str) (digest : Str → Str) where
  -- Instances.Run
  unfoldable pub run :
      Codec Instance → RunInstanceInput → Str → Option Str → Option Str → ℕ → Db → Reply Instance
  run codec input key random eni_random now = checked_reply (validate_name input.name) λ name.
      checked_reply (validate_idempotency_key key) λ _.
        checked_reply (new_id (codes "i-") random) λ id.
          checked_reply (new_id (codes "eni-") eni_random) λ eni_id db.
            reply_of (λ i. i.id)
              (with_tx
                (run_tx digest codec id eni_id input name key (hash (name ∷ input.subnet_id ∷ []))
                  now)
                db)

-- the snapshot that TerminateSnapshot returns for a first request
abbrev pub terminating : Instance → Instance
terminating current = record current {
  deletion_requested = true;
  generation = current.generation + 1;
  state = InstanceState.shutting_down;
  state_reason = [];
}

-- the transaction of TerminateSnapshot
unfoldable pub terminate_tx : Str → ℕ → Tx (Instance × Bool)
terminate_tx id now = do
  current ← found_or (get_instance default_workspace id) (no_instance id)
  if current.deletion_requested then pure (current, false) else do
    mark_instance_terminating default_workspace id now
    append_event (record {
      workspace_id = default_workspace;
      resource_type = codes "instance";
      resource_id = id;
      action = codes "terminating";
      state = instance_state_text InstanceState.shutting_down;
      generation = current.generation + 1;
      message = [];
      created_at = now;
    })
    pure (terminating current, true)

-- Instances.TerminateSnapshot; Terminate keeps its error alone
unfoldable pub terminate_snapshot : Str → ℕ → Db → Reply Instance
terminate_snapshot id now db = reply_of (λ i. id) (with_tx (terminate_tx id now) db)

-- Instances.Get
unfoldable pub service_get_instance : Str → Db → Result Error Instance × Db
service_get_instance id = with_tx (found_or (get_instance default_workspace id) (no_instance id))
