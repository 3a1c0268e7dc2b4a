-- ===== src/Service/Idempotency/Replay.antt =====
-- internal/service/idempotency.go: a lookup of what saveReplay has saved.
use nephos.Base.{
  ℕ, ◌+◌, ◌<◌, ◌≡◌, refl, ap, ◌∙◌, Bool, true, false, not, Option, none, some, [], ◌∷◌, arith, leb,
  find_first, Str, codes, str_eq, keep, str_eq_refl, ok, err,
}
use nephos.Netip.{Prefix}
use nephos.Model.{Vpc}
use nephos.Errors.{api}
use nephos.Store.Tables.{Db}
use nephos.Store.Tx.{one_row, pure, on_error, absent, ◌>>◌}
use nephos.Store.Tx.Kept.{bind-ok}
use nephos.Store.Resources.{allocate_index, insert_vpc_model, get_vpc_by_name}
use nephos.Store.Log.{append_event}
use nephos.Store.Reconcile.{vpc_event, state_text}
use nephos.Service.Idempotency.{Codec, default_workspace, load_replay, save_replay, or_replay}
use nephos.Service.Network.{
  create_vpc_tx, insert_pending_vpc, pending_vpc, as_name_conflict, name_conflict,
}
use nephos.Errors.{idempotent_parameter_mismatch}
use nephos.Store.Tables.{IdempotencyRow}
use nephos.Store.Log.{put_idempotency, get_idempotency, idempotency_key}
use nephos.Service.Idempotency.{replay_of}

module _ {A : Type 0} (codec : Codec A) (operation hash id : Str) (a : A) (now : ℕ) where
  -- the row that saveReplay writes
  abbrev saved_row : Str → IdempotencyRow
  saved_row key = record {
    workspace_id = default_workspace;
    operation = operation;
    key = key;
    payload_hash = hash;
    resource_id = id;
    created_at = now;
    expires_at = now + 86400;
    response_json = codec.marshal a;
  }

  matches : (key : Str) → idempotency_key default_workspace operation key (saved_row key) ≡ true
  matches key = rw (str_eq_refl key, str_eq_refl operation, str_eq_refl default_workspace) refl

  saved :
      (c : ℕ) (key : Str) (db : Db) {u : Unit {0}} {db' : Db}
      → save_replay codec operation (c ∷ key) hash id a now db ≡ ok (u, db')
      → get_idempotency default_workspace operation (c ∷ key) db' ≡ ok (saved_row (c ∷ key), db')
  unfolding save_replay put_idempotency get_idempotency
  saved c key db {db' = db'} h =
      let row = saved_row (c ∷ key) in
      let same = idempotency_key default_workspace operation (c ∷ key) in
      let written : db'.idempotency_requests
          ≡ row ∷ keep (λ r. not (same r)) db.idempotency_requests =
        ground arith in
      let there : find_first same (row ∷ keep (λ r. not (same r)) db.idempotency_requests)
          ≡ some row =
        rw (matches (c ∷ key)) refl in
      ap (λ o. one_row o db') (ap (find_first same) written ∙ there)

  -- What is saved under a key is loaded until a day has passed.
  pub load_replay-save_replay :
      (c : ℕ) (key : Str) (later : ℕ) (db : Db) {u : Unit {0}} {db' : Db}
      → save_replay codec operation (c ∷ key) hash id a now db ≡ ok (u, db')
      → later < now + 86400
      → load_replay codec operation (c ∷ key) hash later db' ≡ ok (some a, db')
  unfolding load_replay replay_of
  load_replay-save_replay c key later db {db' = db'} h l =
      let fresh : leb (now + 86400) later ≡ false = ground arith in
      rw (saved c key db h, fresh, str_eq_refl hash, codec.unmarshal-marshal a) refl

  -- Less than a day after a result is saved under a key that is not empty, a lookup with that
  -- key and another payload hash is refused as IdempotentParameterMismatch.
  pub load_replay-mismatch :
      (c : ℕ) (key other : Str) (later : ℕ) (db : Db) {u : Unit {0}} {db' : Db}
      → save_replay codec operation (c ∷ key) hash id a now db ≡ ok (u, db')
      → later < now + 86400
      → str_eq hash other ≡ false
      → load_replay codec operation (c ∷ key) other later db'
        ≡ err
            (api (record { code = idempotent_parameter_mismatch; resource_id = []; status = 409 }))
  unfolding load_replay replay_of
  load_replay-mismatch c key other later db h l d =
      let fresh : leb (now + 86400) later ≡ false = ground arith in
      rw (saved c key db h, fresh, d) refl

insert_pending_vpc-replay :
    (codec : Codec Vpc) (id name : Str) (cidr : Prefix) (c : ℕ) (key hash : Str) (now later : ℕ)
    (db : Db) {v : Vpc} {b : Bool} {db' : Db}
    → insert_pending_vpc codec id name cidr (c ∷ key) hash now db ≡ ok ((v, b), db')
    → later < now + 86400
    → load_replay codec (codes "create-vpc") (c ∷ key) hash later db' ≡ ok (some v, db')
unfolding insert_pending_vpc
insert_pending_vpc-replay codec id name cidr c key hash now later db h l =
    let (index, db1, e1, r1) = bind-ok (allocate_index (codes "vpc") id) _ db h in
    let vpc = pending_vpc id name cidr index in
    let (_, db2, e2, r2) =
      bind-ok (on_error (insert_vpc_model vpc now) as_name_conflict) _ db1 r1 in
    let (_, db3, e3, r3) =
      bind-ok (append_event (vpc_event vpc (codes "created") (state_text vpc.state) [] now)) _ db2
        r2 in
    let (_, db4, e4, r4) =
      bind-ok (save_replay codec (codes "create-vpc") (c ∷ key) hash id vpc now)
        (λ _. pure (vpc, true)) db3 r3 in
    finish vpc db4 r4
      (load_replay-save_replay codec (codes "create-vpc") hash id vpc now c key later db3 e4 l)
  where
    finish :
        (vpc : Vpc) (db4 : Db) {v : Vpc} {b : Bool} {db' : Db}
        → pure {A = Vpc × Bool} (vpc, true) db4 ≡ ok ((v, b), db')
        → load_replay codec (codes "create-vpc") (c ∷ key) hash later db4 ≡ ok (some vpc, db4)
        → load_replay codec (codes "create-vpc") (c ∷ key) hash later db' ≡ ok (some v, db')
    finish vpc db4 {v} {b} {db'} r q =
        let same : db4 ≡ db' = ground arith in
        let same' : vpc ≡ v = ground arith in rw (← same, ← same') q

-- A repeated CreateVPC transaction finds what the first has made.
pub create_vpc_tx-replay :
    (codec : Codec Vpc) (id name : Str) (cidr : Prefix) (c : ℕ) (key hash : Str) (now later : ℕ)
    (db : Db) {v : Vpc} {db' : Db}
    → create_vpc_tx codec id name cidr (c ∷ key) hash now db ≡ ok ((v, true), db')
    → later < now + 86400
    → load_replay codec (codes "create-vpc") (c ∷ key) hash later db' ≡ ok (some v, db')
unfolding create_vpc_tx
create_vpc_tx-replay codec id name cidr c key hash now later db h l =
    let (replay, db1, e1, r1) =
      bind-ok (load_replay codec (codes "create-vpc") (c ∷ key) hash now) _ db h in
    made replay db1 r1
  where
    made :
        (r : Option Vpc) (db1 : Db) {v : Vpc} {db' : Db}
        → or_replay r
            (absent (get_vpc_by_name default_workspace name) name_conflict
              >> insert_pending_vpc codec id name cidr (c ∷ key) hash now)
            db1
          ≡ ok ((v, true), db')
        → load_replay codec (codes "create-vpc") (c ∷ key) hash later db' ≡ ok (some v, db')
    made (some x) db1 h = absurd (ground arith)
    made none db1 h =
        let (_, db2, e2, r2) =
          bind-ok (absent (get_vpc_by_name default_workspace name) name_conflict) _ db1 h in
        insert_pending_vpc-replay codec id name cidr c key hash now later db2 r2 l
