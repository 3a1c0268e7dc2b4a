-- ===== src/Service/Idempotency.antt =====
-- internal/service/idempotency.go: replays of keyed creations, and the reply of a handler.
pub mod Replay
pub mod Repeat
use nephos.Base.{
  ℕ, zero, suc, ◌+◌, ◌≡◌, Bool, true, false, not, Option, none, some, [], ◌∷◌, leb, if◌then◌else◌,
  Str, codes, str_eq, Result, ok, err,
}
use nephos.Errors.{Error, api, failure, idempotent_parameter_mismatch}
use nephos.Store.Tables.{Db, IdempotencyRow}
use nephos.Store.Tx.{Tx, pure, fail, reading, settle, with_tx, ◌>>=◌, ◌>>◌}
use nephos.Store.Log.{get_idempotency, put_idempotency}

abbrev pub default_workspace : Str
default_workspace = codes "default"

-- encoding/json on one type: what Marshal writes, Unmarshal reads
pub record Codec (A : Type 0) : Type 0 where
  pub marshal : A → Str
  pub unmarshal : Str → Option A
  pub unmarshal-marshal : (a : A) → unmarshal (marshal a) ≡ some a

-- what a handler leaves: its result, the database, and the ID that it hands to `enqueue`
pub record Reply (A : Type 0) : Type 0 where
  pub result : Result Error A
  pub db : Db
  pub enqueued : Option Str

module _ {A : Type 0} where
  abbrev pub replay_value : Option A → Result Error (Option A)
  replay_value none = err failure
  replay_value (some a) = ok (some a)

  -- loadReplay, once the record is there
  unfoldable pub replay_of : Codec A → Str → ℕ → IdempotencyRow → Result Error (Option A)
  replay_of codec hash now r =
      if leb r.expires_at now
      then ok none
      else if not (str_eq r.payload_hash hash)
      then err
          (api (record { code = idempotent_parameter_mismatch; resource_id = []; status = 409 }))
      else replay_value (codec.unmarshal r.response_json)

  -- the first lookup of loadReplay, where a missing row is no error
  abbrev pub replay_result :
      Codec A → Str → ℕ → Db → Result Error (IdempotencyRow × Db) → Result Error (Option A × Db)
  replay_result codec hash now db (err Error.no_rows) = ok (none, db)
  replay_result codec hash now db (err e) = err e
  replay_result codec hash now db (ok (r, _)) = reading (replay_of codec hash now r) db

  -- loadReplay
  unfoldable pub load_replay : Codec A → Str → Str → Str → ℕ → Tx (Option A)
  load_replay codec operation [] hash now db = ok (none, db)
  load_replay codec operation (c ∷ key) hash now db =
      replay_result codec hash now db (get_idempotency default_workspace operation (c ∷ key) db)

  -- saveReplay; a day has 86400 seconds
  unfoldable pub save_replay : Codec A → Str → Str → Str → Str → A → ℕ → Tx (Unit {0})
  save_replay codec operation [] hash resource_id result now = pure tt
  save_replay codec operation (c ∷ key) hash resource_id result now = put_idempotency (record {
    workspace_id = default_workspace;
    operation = operation;
    key = c ∷ key;
    payload_hash = hash;
    resource_id = resource_id;
    created_at = now;
    expires_at = now + 86400;
    response_json = codec.marshal result;
  })

  -- `if found { result = replay; return nil }`, with the flag `created`
  abbrev pub or_replay : Option A → Tx (A × Bool) → Tx (A × Bool)
  or_replay (some a) m = pure (a, false)
  or_replay none m = m

  abbrev pub reply_of : (A → Str) → Result Error (A × Bool) × Db → Reply A
  reply_of hint (err e, db) = record { result = err e; db = db; enqueued = none }
  reply_of hint (ok (a, true), db) = record { result = ok a; db = db; enqueued = some (hint a) }
  reply_of hint (ok (a, false), db) = record { result = ok a; db = db; enqueued = none }

  abbrev pub refuse : Error → Db → Reply A
  refuse e db = record { result = err e; db = db; enqueued = none }

module _ {A B : Type 0} where
  -- the checks before a transaction: the first error is the reply, and the database is not touched
  abbrev pub checked_reply : Result Error B → (B → Db → Reply A) → Db → Reply A
  checked_reply (err e) k db = refuse e db
  checked_reply (ok b) k db = k b db
