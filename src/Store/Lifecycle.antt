-- ===== src/Store/Lifecycle.antt =====
-- internal/store/instance_reconcile.go: observed instance states and the end of a termination.
use nephos.Base.{
  ℕ, Bool, true, false, not, ◌&&◌, ◌||◌, [], ◌∷◌, ◌==◌, if◌then◌else◌, bool_eq, Str, codes, str_eq,
  Result, err,
}
use nephos.Netip.{addr_eq}
use nephos.Model.{State, InstanceState, Instance, instance_state_eq}
use nephos.Errors.{Error, failure, stale_snapshot}
use nephos.Store.Tables.{Db}
use nephos.Store.Tx.{Tx, pure, fail, found_or, with_tx, ◌>>=◌, ◌>>◌}
use nephos.Store.Instances.{
  update_instance_status, update_instance_eni_status, delete_instance_eni, delete_instance_row,
}
use nephos.Store.Log.{Event, append_event}
use nephos.Store.Leases.{get_instance}

-- sameInstanceDecision
unfoldable pub same_instance_decision : Instance → Instance → Bool
same_instance_decision current s =
    str_eq current.id s.id
    && (str_eq current.workspace_id s.workspace_id
        && ((current.generation == s.generation)
            && (bool_eq current.deletion_requested s.deletion_requested
                && (str_eq current.subnet_id s.subnet_id
                    && ((current.short_index == s.short_index)
                        && (str_eq current.runtime_id s.runtime_id
                            && (str_eq current.eni.id s.eni.id
                                && ((current.eni.short_index == s.eni.short_index)
                                    && addr_eq current.eni.private_ip s.eni.private_ip))))))))

-- string(InstanceState)
abbrev pub instance_state_text : InstanceState → Str
instance_state_text InstanceState.pending = codes "pending"
instance_state_text InstanceState.running = codes "running"
instance_state_text InstanceState.shutting_down = codes "shutting-down"
instance_state_text InstanceState.failed = codes "failed"

abbrev pub instance_event : Instance → Str → Str → ℕ → Str → ℕ → Event
instance_event i action state generation message now = record {
  workspace_id = i.workspace_id;
  resource_type = codes "instance";
  resource_id = i.id;
  action = action;
  state = state;
  generation = generation;
  message = message;
  created_at = now;
}

-- the ENI's half of RecordInstance, for an instance that is not being deleted
unfoldable pub record_eni : Instance → Str → Bool → ℕ → Tx (Unit {0})
record_eni current reason observed now =
    if current.deletion_requested
    then pure tt
    else if observed
    then update_instance_eni_status State.available reason current.eni.generation now current.eni.id
        current.workspace_id
    else update_instance_eni_status State.failed reason current.eni.observed_generation now
        current.eni.id current.workspace_id

-- the transaction of RecordInstance
unfoldable pub record_instance_tx : Instance → InstanceState → Str → Bool → ℕ → Tx (Unit {0})
record_instance_tx s status reason observed now = do
  current ← found_or (get_instance s.workspace_id s.id) stale_snapshot
  if not (same_instance_decision current s)
      then fail stale_snapshot
      else let generation = if observed then current.generation else current.observed_generation in
        if instance_state_eq current.state status
          && (str_eq current.state_reason reason && (current.observed_generation == generation))
        then pure tt
        else do
          update_instance_status status reason generation now current.id current.workspace_id
          record_eni current reason observed now
          append_event (
              instance_event current (codes "status") (instance_state_text status)
                current.generation reason now)

abbrev pub is_empty : Str → Bool
is_empty [] = true
is_empty (c ∷ s) = false

-- RecordInstance
unfoldable pub record_instance :
    Instance → InstanceState → Str → Bool → ℕ → Db → Result Error (Unit {0}) × Db
record_instance s status reason observed now db =
    if not (instance_state_eq status InstanceState.running)
      && not (instance_state_eq status InstanceState.failed)
    then (err failure, db)
    else if observed
        && (not (instance_state_eq status InstanceState.running)
            || (is_empty s.runtime_id || s.deletion_requested))
    then (err failure, db)
    else with_tx (record_instance_tx s status reason observed now) db

-- the transaction of FinishInstanceTermination
unfoldable pub finish_instance_termination_tx : Instance → ℕ → Tx (Unit {0})
finish_instance_termination_tx s now = do
  current ← found_or (get_instance s.workspace_id s.id) stale_snapshot
  if not (same_instance_decision current s) || not current.deletion_requested
      then fail stale_snapshot
      else do
        delete_instance_eni current.eni.id current.workspace_id
        delete_instance_row current.id current.workspace_id
        append_event
            (instance_event current (codes "deleted") (codes "deleted") current.generation [] now)

-- FinishInstanceTermination
unfoldable pub finish_instance_termination : Instance → ℕ → Db → Result Error (Unit {0}) × Db
finish_instance_termination s now = with_tx (finish_instance_termination_tx s now)
