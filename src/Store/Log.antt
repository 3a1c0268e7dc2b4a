-- ===== src/Store/Log.antt =====
-- internal/store/events.go and the idempotency half of internal/store/resources.go, with their
-- statements of internal/store/sqlc.
pub mod Resume
use nephos.Base.{
  ℕ, zero, suc, ◌+◌, Bool, not, ◌&&◌, ◌||◌, List, [], ◌∷◌, ◌++◌, ltb, if◌then◌else◌, take, keep,
  find_first, Str, str_eq, Result, ok, err,
}
use nephos.Errors.{Error, failure, foreign_key_violation}
use nephos.Store.Tables.{Db, EventRow, IdempotencyRow, same_key}
use nephos.Store.Tx.{Tx, one_row}
use nephos.Store.Vpcs.{workspace_exists}

-- store.Event before it has its ID
pub record Event : Type 0 where
  pub workspace_id : Str
  pub resource_type : Str
  pub resource_id : Str
  pub action : Str
  pub state : Str
  pub generation : ℕ
  pub message : Str
  pub created_at : ℕ

abbrev pub event_row : ℕ → Event → EventRow
event_row id e = record {
  id = id;
  workspace_id = e.workspace_id;
  resource_type = e.resource_type;
  resource_id = e.resource_id;
  action = e.action;
  state = e.state;
  generation = e.generation;
  message = e.message;
  created_at = e.created_at;
}

-- AppendEvent and InsertEvent
unfoldable pub append_event : Event → Tx (Unit {0})
append_event e db =
    if not (workspace_exists e.workspace_id db)
    then err foreign_key_violation
    else let id = db.last_event + 1 in
      ok (tt, record db { events = db.events ++ event_row id e ∷ []; last_event = id })

-- EventsAfter of the store and of sqlc
unfoldable pub events_after : ℕ → ℕ → Db → Result Error (List EventRow)
events_after id limit db =
    if ltb limit 1 || ltb 100 limit
    then err failure
    else ok (take limit (keep (λ r. ltb id r.id) db.events))

abbrev pub idempotency_key : Str → Str → Str → IdempotencyRow → Bool
idempotency_key workspace operation key r =
    str_eq key r.key && same_key operation workspace r.operation r.workspace_id

-- GetIdempotency
unfoldable pub get_idempotency : Str → Str → Str → Tx IdempotencyRow
get_idempotency workspace operation key db =
    one_row (find_first (idempotency_key workspace operation key) db.idempotency_requests) db

-- PutIdempotency: INSERT … ON CONFLICT DO UPDATE
unfoldable pub put_idempotency : IdempotencyRow → Tx (Unit {0})
put_idempotency row db =
    let same = idempotency_key row.workspace_id row.operation row.key in
    if not (workspace_exists row.workspace_id db)
    then err foreign_key_violation
    else ok (
      tt,
      record db { idempotency_requests = row ∷ keep (λ r. not (same r)) db.idempotency_requests },
    )
