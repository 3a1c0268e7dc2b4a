-- ===== src/Store/Reconcile.antt =====
-- internal/store/reconcile.go: what an engine operation on a VPC has observed is recorded.
pub mod Fresh
use nephos.Base.{
  ℕ, zero, suc, Bool, true, false, not, ◌&&◌, Option, none, some, List, [], ◌∷◌, ◌==◌,
  if◌then◌else◌, bool_eq, Str, codes, str_eq, Result,
}
use nephos.Model.{State, Vpc, Subnet, state_eq}
use nephos.Errors.{Error, failure, stale_snapshot}
use nephos.Store.Tables.{Db}
use nephos.Store.Tx.{Tx, pure, fail, found_or, with_tx, ◌>>=◌, ◌>>◌}
use nephos.Store.Vpcs.{update_vpc_status, delete_vpc_row}
use nephos.Store.Subnets.{update_subnet_status, delete_subnet_row}
use nephos.Store.Log.{Event, append_event}
use nephos.Store.Resources.{get_vpc, list_subnets_by_vpc}

-- string(State)
abbrev pub state_text : State → Str
state_text State.pending = codes "pending"
state_text State.available = codes "available"
state_text State.deleting = codes "deleting"
state_text State.failed = codes "failed"

-- sameDesiredChildren
unfoldable pub same_desired_children : List Subnet → List Subnet → Bool
same_desired_children [] [] = true
same_desired_children [] (a ∷ applied) = false
same_desired_children (c ∷ current) [] = false
same_desired_children (c ∷ current) (a ∷ applied) =
    str_eq c.id a.id
    && ((c.generation == a.generation)
        && (bool_eq c.deletion_requested a.deletion_requested
            && ((c.short_index == a.short_index) && same_desired_children current applied)))

abbrev pub vpc_event : Vpc → Str → Str → Str → ℕ → Event
vpc_event v action state message now = record {
  workspace_id = v.workspace_id;
  resource_type = codes "vpc";
  resource_id = v.id;
  action = action;
  state = state;
  generation = v.generation;
  message = message;
  created_at = now;
}

abbrev pub subnet_event : Subnet → Str → Str → Str → ℕ → Event
subnet_event s action state message now = record {
  workspace_id = s.workspace_id;
  resource_type = codes "subnet";
  resource_id = s.id;
  action = action;
  state = state;
  generation = s.generation;
  message = message;
  created_at = now;
}

-- recordVPCStatus
unfoldable pub record_vpc_status : Vpc → State → Str → Bool → ℕ → Tx (Unit {0})
record_vpc_status v state reason observed now =
    let generation = if observed then v.generation else v.observed_generation in
    if state_eq v.state state
      && (str_eq v.state_reason reason && (v.observed_generation == generation))
    then pure tt
    else do
      update_vpc_status state reason generation now v.id v.workspace_id
      append_event (vpc_event v (codes "status") (state_text state) reason now)

-- recordSubnetStatus
unfoldable pub record_subnet_status : Subnet → State → Str → Bool → ℕ → Tx (Unit {0})
record_subnet_status s state reason observed now =
    let generation = if observed then s.generation else s.observed_generation in
    if state_eq s.state state
      && (str_eq s.state_reason reason && (s.observed_generation == generation))
    then pure tt
    else do
      update_subnet_status state reason generation now s.id s.workspace_id
      append_event (subnet_event s (codes "status") (state_text state) reason now)

-- one round of the loop over the children
unfoldable pub record_child : State → Str → Bool → ℕ → Subnet → Tx (Unit {0})
record_child state reason applied now child =
    if child.deletion_requested && applied
    then (do
      delete_subnet_row child.id child.workspace_id
      append_event (subnet_event child (codes "deleted") (codes "deleted") [] now))
    else record_subnet_status child state reason applied now

-- for i := range children
unfoldable pub record_children : State → Str → Bool → ℕ → List Subnet → Tx (Unit {0})
record_children state reason applied now [] = pure tt
record_children state reason applied now (c ∷ children) =
    record_child state reason applied now c >> record_children state reason applied now children

-- the VPC and the children that the engine was given are those of the database
abbrev pub same_desired_vpc : Vpc → Vpc → Bool
same_desired_vpc current v =
    (current.generation == v.generation)
    && (bool_eq current.deletion_requested v.deletion_requested
        && (current.short_index == v.short_index))

abbrev pub is_applied : Option Str → Bool
is_applied none = true
is_applied (some reason) = false

abbrev pub observed_state : Option Str → State
observed_state none = State.available
observed_state (some reason) = State.failed

abbrev pub observed_reason : Option Str → Str
observed_reason none = []
observed_reason (some reason) = reason

abbrev pub is_nil {ℓ} : {A : Type ℓ} → List A → Bool
is_nil [] = true
is_nil (x ∷ xs) = false

-- the removal of a VPC that the engine has torn down
unfoldable pub finish_vpc : Vpc → List Subnet → ℕ → Tx (Unit {0})
finish_vpc v children now = if not (is_nil children) then fail failure else do
  delete_vpc_row v.id v.workspace_id
  append_event (vpc_event v (codes "deleted") (codes "deleted") [] now)

-- the transaction of RecordTopology; `effect` is effectErr's text
unfoldable pub record_topology_tx : Vpc → List Subnet → Option Str → ℕ → Tx (Unit {0})
record_topology_tx v subnets effect now = do
  current ← found_or (get_vpc v.workspace_id v.id) stale_snapshot
  if not (same_desired_vpc current v) then fail stale_snapshot else do
    children ← list_subnets_by_vpc v.id
    if not (same_desired_children children subnets)
        then fail stale_snapshot
        else if v.deletion_requested && is_applied effect
        then finish_vpc v children now
        else do
          record_vpc_status current (observed_state effect) (observed_reason effect)
              (is_applied effect) now
          record_children (observed_state effect) (observed_reason effect) (is_applied effect) now
              children

-- RecordTopology
unfoldable pub record_topology :
    Vpc → List Subnet → Option Str → ℕ → Db → Result Error (Unit {0}) × Db
record_topology v subnets effect now = with_tx (record_topology_tx v subnets effect now)
