-- ===== src/Examples/Records.antt =====
-- The theorems on recorded state, deletions, the event log and page tokens, on the small network.
use nephos.Base.{
  ◌≢◌, ◌↔◌, ℕ, zero, suc, ◌+◌, ◌^◌, ◌≤◌, ◌≡◌, ◌↔◌, ◌⊎◌, refl, true, false, none, some, List, [],
  ◌∷◌, ◌++◌, keep, arith, ltb, All, Str, codes, str_eq, ok, err,
}
use nephos.Netip.{Addr, v4, Prefix}
use nephos.Netip.Text.{parse_prefix}
use nephos.Netmac.{print_mac}
use nephos.Model.{State, InstanceState, Vpc, Subnet}
use nephos.Errors.{api, invalid_parameter, idempotent_parameter_mismatch, stale_snapshot}
use nephos.Store.Tables.{Db, new_db}
use nephos.Store.Log.{Event, append_event, event_row, events_after}
use nephos.Store.Vpcs.{workspace_exists}
use nephos.Service.Pagination.Base64.{decode}
use nephos.Store.Log.Resume.{IsLog, append_event-read, events_after-resume}
use nephos.Store.Leases.{record_runtime_id, retain_terminating_runtime_id, valid_eni_mac}
use nephos.Store.Instances.Runtime.{
  RuntimeKept, record_runtime_id-RuntimeKept, retain_terminating_runtime_id-RuntimeKept,
}
use nephos.Store.Reconcile.{record_topology}
use nephos.Store.Reconcile.Fresh.{IsCurrent, record_topology-IsCurrent}
use nephos.Service.Issued.{valid_eni_mac-local_mac}
use nephos.Service.Pagination.{valid_page_id, encode_page_token, decode_page_token}
use nephos.Service.Pagination.Tokens.{
  decode-encode_page_token, decode_page_token-other, decode_page_token_iff, Says,
}
use nephos.Service.Idempotency.{load_replay, save_replay}
use nephos.Service.Idempotency.Replay.{load_replay-mismatch}
use nephos.Service.Network.{CreateVpcInput, CreateSubnetInput, pending_vpc, no_vpc}
use nephos.Service.Requests.{delete_vpc, delete_subnet}
use nephos.Service.Guards.{delete_vpc-childless, delete_subnet-unused}
use nephos.Service.Instances.{local_mac}
use nephos.Examples.Codecs.{vpc_codec}
use nephos.Examples.Data.{
  digest, vpc_id, net, front, created, one_vpc, one_subnet, one_instance, two_events,
}

recorded : (record_topology net (front ∷ []) none 20 one_subnet).0 ≡ ok tt
unfolding record_topology nephos.Store.Tx.with_tx nephos.Store.Reconcile.record_topology_tx
    nephos.Store.Resources.get_vpc nephos.Store.Vpcs.get_vpc_row str_eq
    nephos.Store.Resources.vpc_from_row nephos.Netip.is4 parse_prefix
    nephos.Store.Resources.list_subnets_by_vpc nephos.Store.Resources.read_rows
    nephos.Store.Subnets.list_subnet_rows_by_vpc nephos.Store.Resources.subnet_from_row
    nephos.Store.Reconcile.same_desired_children nephos.Store.Reconcile.record_vpc_status
    nephos.Model.state_eq nephos.Store.Vpcs.update_vpc_status append_event
    nephos.Store.Reconcile.record_children nephos.Store.Reconcile.record_child
    nephos.Store.Reconcile.record_subnet_status nephos.Store.Subnets.update_subnet_status
recorded = refl

record_topology-IsCurrent_example : IsCurrent net (front ∷ []) one_subnet
record_topology-IsCurrent_example =
    record_topology-IsCurrent net (front ∷ []) none 20 one_subnet recorded

stale : (record_topology net [] none 20 one_subnet).0 ≡ err stale_snapshot
unfolding record_topology nephos.Store.Tx.with_tx nephos.Store.Reconcile.record_topology_tx
    nephos.Store.Resources.get_vpc nephos.Store.Vpcs.get_vpc_row str_eq
    nephos.Store.Resources.vpc_from_row nephos.Netip.is4 parse_prefix
    nephos.Store.Resources.list_subnets_by_vpc nephos.Store.Resources.read_rows
    nephos.Store.Subnets.list_subnet_rows_by_vpc nephos.Store.Resources.subnet_from_row
    nephos.Store.Reconcile.same_desired_children
stale = refl

abbrev net_deleting : Vpc
net_deleting = record net { state = State.deleting; deletion_requested = true; generation = 2 }

net_deleted : (delete_vpc vpc_id 30 one_vpc).result ≡ ok net_deleting
unfolding delete_vpc nephos.Store.Tx.with_tx nephos.Service.Network.delete_vpc_tx
    nephos.Store.Resources.get_vpc nephos.Store.Vpcs.get_vpc_row str_eq
    nephos.Store.Resources.vpc_from_row nephos.Netip.is4 parse_prefix
    nephos.Store.Resources.list_subnets_by_vpc nephos.Store.Resources.read_rows
    nephos.Store.Subnets.list_subnet_rows_by_vpc nephos.Service.Network.start_vpc_deletion
    nephos.Store.Resources.mark_vpc_deleting nephos.Store.Vpcs.mark_vpc_deleting_row append_event
net_deleted = refl

delete_vpc-childless_example : All (λ s. str_eq vpc_id s.vpc_id ≡ false) one_vpc.subnets
delete_vpc-childless_example = delete_vpc-childless vpc_id 30 one_vpc net_deleting net_deleted

abbrev front_deleting : Subnet
front_deleting = record front { state = State.deleting; deletion_requested = true; generation = 2 }

front_deleted : (delete_subnet (codes "subnet-1") 30 one_subnet).result ≡ ok front_deleting
unfolding delete_subnet nephos.Store.Tx.with_tx nephos.Service.Network.delete_subnet_tx
    nephos.Store.Resources.get_subnet nephos.Store.Subnets.get_subnet_row str_eq
    nephos.Store.Resources.subnet_from_row nephos.Netip.is4 parse_prefix
    nephos.Store.Subnets.count_instances_in_subnet nephos.Service.Network.start_subnet_deletion
    nephos.Store.Resources.mark_subnet_deleting nephos.Store.Subnets.mark_subnet_deleting_row
    append_event
front_deleted = refl

delete_subnet-unused_example :
    All (λ r. str_eq (codes "subnet-1") r.subnet_id ≡ false) one_subnet.instances
delete_subnet-unused_example =
    delete_subnet-unused (codes "subnet-1") 30 one_subnet front_deleting front_deleted

abbrev keyed : Db
keyed = record new_db {
  idempotency_requests =
      record {
        workspace_id = codes "default";
        operation = codes "create-vpc";
        key = codes "k";
        payload_hash = codes "h";
        resource_id = vpc_id;
        created_at = 10;
        expires_at = 86410;
        response_json = vpc_codec.marshal net;
      }
      ∷ [];
}

kept :
    save_replay vpc_codec (codes "create-vpc") (codes "k") (codes "h") vpc_id net 10 new_db
    ≡ ok (tt, keyed)
unfolding save_replay nephos.Store.Log.put_idempotency str_eq
kept = refl

load_replay-mismatch_example :
    load_replay vpc_codec (codes "create-vpc") (codes "k") (codes "g") 20 keyed
    ≡ err (api (record { code = idempotent_parameter_mismatch; resource_id = []; status = 409 }))
unfolding str_eq
load_replay-mismatch_example =
    load_replay-mismatch vpc_codec (codes "create-vpc") (codes "h") vpc_id net 10 b'k' []
      (codes "g") 20 new_db kept (omega arith) refl

two_events-IsLog : IsLog two_events
two_events-IsLog = record { ascending = (omega arith, (omega arith, tt)); counted = omega arith }

first_page : events_after 0 1 two_events ≡ ok (event_row 1 created ∷ [])
unfolding events_after
first_page = refl

events_after-resume_example :
    event_row 1 created ∷ keep (λ r. ltb 1 r.id) two_events.events
    ≡ keep (λ r. ltb 0 r.id) two_events.events
events_after-resume_example =
    events_after-resume 0 1 two_events (event_row 1 created ∷ []) two_events-IsLog first_page

abbrev three_events : Db
three_events = record two_events {
  events = event_row 1 created ∷ event_row 2 created ∷ event_row 3 created ∷ [];
  last_event = 3;
}

appended : append_event created two_events ≡ ok (tt, three_events)
unfolding append_event str_eq
appended = refl

known : workspace_exists (codes "default") two_events ≡ true
unfolding str_eq
known = refl

append_event-read_example :
    (db' : Db) × (append_event created two_events ≡ ok (tt, db'))
    × IsLog db'
    × (events_after 2 50 db' ≡ ok (event_row 3 created ∷ []))
append_event-read_example =
    append_event-read created two_events 2 50 known two_events-IsLog (omega arith) (omega arith)
      (omega arith) (omega arith)

record_runtime_id-RuntimeKept_example :
    RuntimeKept one_instance.instances
      (record_runtime_id (codes "i-1") 1 (codes "r2") one_instance).1.instances
record_runtime_id-RuntimeKept_example =
    record_runtime_id-RuntimeKept (codes "i-1") 1 (codes "r2") one_instance

retain_terminating_runtime_id-RuntimeKept_example :
    RuntimeKept one_instance.instances
      (retain_terminating_runtime_id (codes "i-1") (codes "r2") one_instance).1.instances
retain_terminating_runtime_id-RuntimeKept_example =
    retain_terminating_runtime_id-RuntimeKept (codes "i-1") (codes "r2") one_instance

well_formed : valid_page_id (codes "vpc") vpc_id ≡ true
unfolding valid_page_id nephos.Base.cut_prefix str_eq
well_formed = refl

decode-encode_page_token_example :
    decode_page_token (codes "vpc") (encode_page_token (codes "vpc") vpc_id) ≡ ok vpc_id
decode-encode_page_token_example =
    decode-encode_page_token (codes "vpc") vpc_id (omega arith) (omega arith) well_formed

decode_page_token-other_example :
    decode_page_token (codes "subnet") (encode_page_token (codes "vpc") vpc_id)
    ≡ err invalid_parameter
decode_page_token-other_example =
    decode_page_token-other (codes "vpc") (codes "subnet") vpc_id (omega arith) (omega arith)
      (omega arith) (omega arith) (λ e. cc)

decode_page_token_iff_example :
    (decode_page_token (codes "vpc") (encode_page_token (codes "vpc") vpc_id) ≡ ok vpc_id) ↔ (
      ((encode_page_token (codes "vpc") vpc_id ≡ []) × (vpc_id ≡ []))
      ⊎ ((encode_page_token (codes "vpc") vpc_id ≢ [])
          × Says (codes "vpc") vpc_id (decode (encode_page_token (codes "vpc") vpc_id))))
decode_page_token_iff_example =
    decode_page_token_iff (codes "vpc") (encode_page_token (codes "vpc") vpc_id) vpc_id

valid_eni_mac-local_mac_example :
    valid_eni_mac (print_mac (local_mac (digest []))) ≡ ok (local_mac (digest []))
valid_eni_mac-local_mac_example =
    valid_eni_mac-local_mac 17 34 51 68 85 102 (119 ∷ []) (omega arith)
