-- ===== src/Service/Network.antt =====
-- internal/service/network.go: the transactions on VPCs and subnets.
pub mod Effects
pub mod Marks
pub mod Invariant
pub mod Admission
pub mod Observed
use nephos.Base.{ℕ, zero, suc, Bool, true, false, not, [], map, ◌==◌, if◌then◌else◌, Str, codes}
use nephos.Netip.{Prefix}
use nephos.Netip.Text.{print_prefix}
use nephos.Model.{State, Vpc, Subnet}
use nephos.Errors.{
  Error, ApiError, api, unique_violation, foreign_key_violation, invalid_parameter,
  invalid_parameter_value, dependency_violation, vpc_not_found, subnet_not_found,
}
use nephos.Store.Tables.{Db}
use nephos.Store.Tx.{
  Tx, pure, fail, reading, gets, on_error, absent, found_or, with_tx, ◌>>=◌, ◌>>◌,
}
use nephos.Store.Subnets.{count_instances_in_subnet}
use nephos.Store.Log.{Event, append_event}
use nephos.Store.Resources.{
  allocate_index, insert_vpc_model, insert_subnet_model, get_vpc, get_vpc_by_name, list_vpc_page,
  get_subnet, get_subnet_by_name, list_subnet_page, list_subnets_by_vpc, mark_vpc_deleting,
  mark_subnet_deleting,
}
use nephos.Store.Reconcile.{is_nil, state_text, vpc_event, subnet_event}
use nephos.Service.Validate.{parse_cidr, validate_subnet_range, validate_subnet_disjoint}
use nephos.Service.Names.{validate_name, validate_idempotency_key}
use nephos.Service.Ids.{new_id}
use nephos.Service.Pagination.{page_size, encode_page_token, decode_page_token}
use nephos.Service.Idempotency.{
  default_workspace, Codec, Reply, load_replay, save_replay, or_replay, reply_of, checked_reply,
}

-- nameConflict
abbrev pub name_conflict : Error
name_conflict = api (record { code = invalid_parameter_value; resource_id = []; status = 409 })

-- dependencyViolation
abbrev pub depends : Str → Error
depends id = api (record { code = dependency_violation; resource_id = id; status = 409 })

-- vpcNotFound
abbrev pub no_vpc : Str → Error
no_vpc id = api (record { code = vpc_not_found; resource_id = id; status = 404 })

-- subnetNotFound
abbrev pub no_subnet : Str → Error
no_subnet id = api (record { code = subnet_not_found; resource_id = id; status = 404 })

-- CreateVPCInput, CreateSubnetInput
pub record CreateVpcInput : Type 0 where
  pub name : Str
  pub cidr_block : Str

pub record CreateSubnetInput : Type 0 where
  pub name : Str
  pub vpc_id : Str
  pub cidr_block : Str
  pub availability_zone : Str

abbrev pub pending_vpc : Str → Str → Prefix → ℕ → Vpc
pending_vpc id name cidr index = record {
  id = id;
  workspace_id = default_workspace;
  name = name;
  cidr_block = cidr;
  short_index = index;
  state = State.pending;
  state_reason = [];
  deletion_requested = false;
  generation = 1;
  observed_generation = 0;
}

abbrev pub pending_subnet : Str → Str → Str → Prefix → Str → ℕ → Subnet
pending_subnet id vpc name cidr zone index = record {
  id = id;
  workspace_id = default_workspace;
  vpc_id = vpc;
  name = name;
  cidr_block = cidr;
  availability_zone = zone;
  short_index = index;
  state = State.pending;
  state_reason = [];
  deletion_requested = false;
  generation = 1;
  observed_generation = 0;
}

-- the unique name of a race becomes the same conflict as the lookup's
abbrev pub as_name_conflict : Error → Error
as_name_conflict unique_violation = name_conflict
as_name_conflict e = e

abbrev pub as_subnet_conflict : Str → Error → Error
as_subnet_conflict vpc unique_violation = name_conflict
as_subnet_conflict vpc foreign_key_violation = no_vpc vpc
as_subnet_conflict vpc e = e

-- the new resource of CreateVPC, after the replay and the lookup of its name
unfoldable pub insert_pending_vpc : Codec Vpc → Str → Str → Prefix → Str → Str → ℕ → Tx (Vpc × Bool)
insert_pending_vpc codec id name cidr key hash now = do
  index ← allocate_index (codes "vpc") id
  let vpc = pending_vpc id name cidr index
  on_error (insert_vpc_model vpc now) as_name_conflict
  append_event (vpc_event vpc (codes "created") (state_text vpc.state) [] now)
  save_replay codec (codes "create-vpc") key hash id vpc now
  pure (vpc, true)

-- the transaction of CreateVPC
unfoldable pub create_vpc_tx : Codec Vpc → Str → Str → Prefix → Str → Str → ℕ → Tx (Vpc × Bool)
create_vpc_tx codec id name cidr key hash now = do
  replay ← load_replay codec (codes "create-vpc") key hash now
  or_replay replay do
    absent (get_vpc_by_name default_workspace name) name_conflict
    insert_pending_vpc codec id name cidr key hash now

-- the request of DeleteVPC to delete, once nothing depends on the resource
unfoldable pub start_vpc_deletion : Str → ℕ → Vpc → Tx (Vpc × Bool)
start_vpc_deletion id now vpc = if vpc.deletion_requested then pure (vpc, false) else do
  result ← mark_vpc_deleting default_workspace id now
  append_event (record {
    workspace_id = default_workspace;
    resource_type = codes "vpc";
    resource_id = id;
    action = codes "deleting";
    state = state_text result.state;
    generation = result.generation;
    message = [];
    created_at = now;
  })
  pure (result, true)

-- the transaction of DeleteVPC
unfoldable pub delete_vpc_tx : Str → ℕ → Tx (Vpc × Bool)
delete_vpc_tx id now = do
  vpc ← found_or (get_vpc default_workspace id) (no_vpc id)
  children ← list_subnets_by_vpc id
  if not (is_nil children) then fail (depends id) else start_vpc_deletion id now vpc

-- the new resource of CreateSubnet, after all checks against the VPC
unfoldable pub insert_pending_subnet :
    Codec Subnet → CreateSubnetInput → Str → Str → Str → Prefix → Str → Str → ℕ → Tx (Subnet × Bool)
insert_pending_subnet codec input id vpc name cidr key hash now = do
  index ← allocate_index (codes "subnet") id
  let subnet = pending_subnet id vpc name cidr input.availability_zone index
  on_error (insert_subnet_model subnet now) (as_subnet_conflict input.vpc_id)
  append_event (subnet_event subnet (codes "created") (state_text subnet.state) [] now)
  save_replay codec (codes "create-subnet") key hash id subnet now
  pure (subnet, true)

-- what CreateSubnet asks of the block in a VPC
unfoldable pub check_block : Vpc → Prefix → Tx Vpc
check_block vpc cidr = do
  reading (validate_subnet_range vpc.cidr_block cidr)
  siblings ← list_subnets_by_vpc vpc.id
  reading (validate_subnet_disjoint cidr (map (λ s. s.cidr_block) siblings))
  pure vpc

-- what CreateSubnet asks of the VPC and the siblings
unfoldable pub check_parent : Str → Prefix → Tx Vpc
check_parent vpc_id cidr = do
  vpc ← found_or (get_vpc default_workspace vpc_id) (no_vpc vpc_id)
  if vpc.deletion_requested then fail (depends vpc.id) else check_block vpc cidr

-- the transaction of CreateSubnet
unfoldable pub create_subnet_tx :
    Codec Subnet → CreateSubnetInput → Str → Str → Prefix → Str → Str → ℕ → Tx (Subnet × Bool)
create_subnet_tx codec input id name cidr key hash now = do
  replay ← load_replay codec (codes "create-subnet") key hash now
  or_replay replay do
    vpc ← check_parent input.vpc_id cidr
    absent (get_subnet_by_name default_workspace name) name_conflict
    insert_pending_subnet codec input id vpc.id name cidr key hash now

-- the request of DeleteSubnet to delete, once nothing depends on the resource
unfoldable pub start_subnet_deletion : Str → ℕ → Subnet → Tx (Subnet × Bool)
start_subnet_deletion id now subnet = if subnet.deletion_requested then pure (subnet, false) else do
  result ← mark_subnet_deleting default_workspace id now
  append_event (record {
    workspace_id = default_workspace;
    resource_type = codes "subnet";
    resource_id = id;
    action = codes "deleting";
    state = state_text result.state;
    generation = result.generation;
    message = [];
    created_at = now;
  })
  pure (result, true)

-- the transaction of DeleteSubnet
unfoldable pub delete_subnet_tx : Str → ℕ → Tx (Subnet × Bool)
delete_subnet_tx id now = do
  subnet ← found_or (get_subnet default_workspace id) (no_subnet id)
  instances ← gets (count_instances_in_subnet id)
  if not (instances == 0) then fail (depends id) else start_subnet_deletion id now subnet
