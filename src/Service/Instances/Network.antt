-- ===== src/Service/Instances/Network.antt =====
-- internal/store/instances.go and instance_reconcile.go beside the tables of VPCs and subnets.
use nephos.Base.{
  ℕ, ◌≡◌, refl, sym, inl, inr, Bool, not, ◌&&◌, ◌||◌, [], arith, ◌==◌, if◌then◌else◌, Bool-cases,
  Str, codes, str_eq, Result, ok, err,
}
use mathlib.Core.Path.{subst}
use nephos.Netip.{is4}
use nephos.Netip.Text.{parse_addr, print_addr}
use nephos.Model.{State, InstanceState, Instance, Eni, instance_state_eq}
use nephos.Errors.{Error, stale_snapshot}
use nephos.Store.Tables.{Db, InstanceRow, EniRow}
use nephos.Store.Tx.{reading, pure, Tx, found_or, bind_result, ◌>>=◌}
use nephos.Store.Tx.Kept.{
  Kept, Unchanged, Kept-bind, Unchanged-ok, reading_lem, one_row_lem, on_error-ok,
}
use nephos.Store.Instances.{
  insert_instance, new_instance_row, insert_eni, new_eni_row, get_instance_row, get_primary_eni,
  mark_instance_terminating_row, update_instance_status, update_instance_eni_status,
  delete_instance_eni, delete_instance_row, list_eni_addresses,
}
use nephos.Store.Leases.{
  valid_eni_mac, insert_instance_with_eni, instance_from_row, get_instance, eni_addresses,
  read_addresses, mark_instance_terminating, address_of, instance_of,
}
use nephos.Store.Lifecycle.{
  record_eni, record_instance_tx, finish_instance_termination_tx, same_instance_decision,
  instance_event, instance_state_text,
}
use nephos.Service.Idempotency.{default_workspace}
use nephos.Service.Network.Effects.{SameNet, Top, SameNet-Top}
use nephos.Service.Network.Invariant.{logged-Top}
use nephos.Service.Network.Observed.{either, logged}
use nephos.Service.Instances.{terminate_tx, terminating, no_instance}

module _ (db : Db) {u : Unit {0}} {db' : Db} where
  insert_instance-net : (row : InstanceRow) → insert_instance row db ≡ ok (u, db') → SameNet db db'
  unfolding insert_instance
  insert_instance-net row h = (ground arith, ground arith)

  insert_eni-net : (row : EniRow) → insert_eni row db ≡ ok (u, db') → SameNet db db'
  unfolding insert_eni
  insert_eni-net row h = (ground arith, ground arith)

  update_instance_status-net :
      (state : InstanceState) (reason : Str) (observed now : ℕ) (id w : Str)
      → update_instance_status state reason observed now id w db ≡ ok (u, db')
      → SameNet db db'
  unfolding update_instance_status
  update_instance_status-net state reason observed now id w h = (ground arith, ground arith)

  update_instance_eni_status-net :
      (state : State) (reason : Str) (observed now : ℕ) (id w : Str)
      → update_instance_eni_status state reason observed now id w db ≡ ok (u, db')
      → SameNet db db'
  unfolding update_instance_eni_status
  update_instance_eni_status-net state reason observed now id w h = (ground arith, ground arith)

  delete_instance_row-net :
      (id w : Str) → delete_instance_row id w db ≡ ok (u, db') → SameNet db db'
  unfolding delete_instance_row
  delete_instance_row-net id w h = (ground arith, ground arith)

Kept-net :
    (m : Tx (Unit {0})) (db : Db)
    → ((u : Unit {0}) (db' : Db) → m db ≡ ok (u, db') → SameNet db db')
    → Top db
    → Kept Top (m db)
Kept-net m db k t = go (m db) refl
  where
    go : (r : Result Error (Unit {0} × Db)) → m db ≡ r → Kept Top r
    go (ok (u, db')) e = SameNet-Top db db' (k u db' e) t
    go (err x) e = tt

module _ {A B : Type 0} where
  Unchanged-bind :
      (m : Tx A) (f : A → Tx B) (db : Db)
      → Unchanged db (m db)
      → ((a : A) → Unchanged db (f a db))
      → Unchanged db ((m >>= f) db)
  Unchanged-bind m f db u k = go (m db) u
    where
      go : (r : Result Error (A × Db)) → Unchanged db r → Unchanged db (bind_result r f)
      go (ok (a, d)) u = subst (λ x. Unchanged db (f a x)) (sym u) (k a)
      go (err e) u = tt

-- instanceFromRow and GetInstance only read.
instance_from_row_lem : (row : InstanceRow) (db : Db) → Unchanged db (instance_from_row row db)
unfolding instance_from_row get_primary_eni
instance_from_row_lem row db =
    Unchanged-bind (get_primary_eni row.id row.workspace_id) _ db (one_row_lem _ db) λ eni.
      Unchanged-bind (reading (address_of (parse_addr eni.private_ip))) _ db (reading_lem _ db)
        λ address.
          Unchanged-bind (reading (valid_eni_mac eni.mac_address))
            (λ _. pure (instance_of row eni address)) db (reading_lem _ db) λ mac. refl

pub get_instance_lem : (w id : Str) (db : Db) → Unchanged db (get_instance w id db)
unfolding get_instance get_instance_row
get_instance_lem w id db =
    Unchanged-bind (get_instance_row id w) instance_from_row db (one_row_lem _ db)
      λ row. instance_from_row_lem row db

pub eni_addresses_lem : (subnet : Str) (db : Db) → Unchanged db (eni_addresses subnet db)
unfolding eni_addresses
eni_addresses_lem subnet db = reading_lem (read_addresses (list_eni_addresses subnet db)) db

pub insert_instance_with_eni-Top :
    (i : Instance) (e : Eni) (now : ℕ) (db : Db)
    → Top db
    → Kept Top (insert_instance_with_eni i e now db)
unfolding insert_instance_with_eni is4
insert_instance_with_eni-Top i e now db t =
    either
      (not (str_eq e.instance_id i.id)
        || not (str_eq e.subnet_id i.subnet_id)
        || not (str_eq e.workspace_id i.workspace_id))
      _ _ db tt
      (either (not (is4 e.private_ip)) _ _ db tt (
        Kept-bind Top (reading (valid_eni_mac e.mac_address)) _ db λ mac db1 e1.
          let t1 : Top db1 =
            subst Top
              (sym (Unchanged-ok (reading (valid_eni_mac e.mac_address)) db (reading_lem _ db) e1))
              t in
          Kept-bind Top
            (insert_instance
              (new_instance_row i.id i.workspace_id i.subnet_id i.short_index i.name now))
            _ db1 λ _ db2 e2. inserted db2 (SameNet-Top db1 db2 (insert_instance-net db1 _ e2) t1)))
  where
    row : EniRow
    row =
        new_eni_row e.id e.workspace_id e.instance_id e.subnet_id e.short_index
          (print_addr e.private_ip) e.mac_address now

    inserted : (d : Db) → Top d → Kept Top (insert_eni row d)
    inserted d t = Kept-net (insert_eni row) d (λ _ _ h. insert_eni-net d row h) t

mark_instance_terminating-Top :
    (w id : Str) (now : ℕ) (db : Db) → Top db → Kept Top (mark_instance_terminating w id now db)
unfolding mark_instance_terminating mark_instance_terminating_row
mark_instance_terminating-Top w id now db t = t

record_eni-Top :
    (i : Instance) (reason : Str) (observed : Bool) (now : ℕ) (db : Db)
    → Top db
    → Kept Top (record_eni i reason observed now db)
unfolding record_eni
record_eni-Top i reason observed now db t = either i.deletion_requested _ _ db t (
    either observed _ _ db
      (Kept-net
        (update_instance_eni_status State.available reason i.eni.generation now i.eni.id
          i.workspace_id)
        db (λ _ _ h. update_instance_eni_status-net db _ reason _ now i.eni.id i.workspace_id h) t)
      (Kept-net
        (update_instance_eni_status State.failed reason i.eni.observed_generation now i.eni.id
          i.workspace_id)
        db (λ _ _ h. update_instance_eni_status-net db _ reason _ now i.eni.id i.workspace_id h) t))

pub record_instance_tx-Top :
    (s : Instance) (status : InstanceState) (reason : Str) (observed : Bool) (now : ℕ) (db : Db)
    → Top db
    → Kept Top (record_instance_tx s status reason observed now db)
unfolding record_instance_tx
record_instance_tx-Top s status reason observed now db t =
    Kept-bind Top (found_or (get_instance s.workspace_id s.id) stale_snapshot) _ db
      λ current db1 e1.
        let t1 : Top db1 =
          subst Top
            (sym (
              Unchanged-ok (get_instance s.workspace_id s.id) db
                (get_instance_lem s.workspace_id s.id db)
                (on_error-ok (get_instance s.workspace_id s.id) _ db e1)))
            t in
        let generation = if observed then current.generation else current.observed_generation in
        either (not (same_instance_decision current s)) _ _ db1 tt (
          either
            (instance_state_eq current.state status
              && (str_eq current.state_reason reason
                  && (current.observed_generation == generation)))
            _ _ db1 t1
            (Kept-bind Top
              (update_instance_status status reason generation now current.id current.workspace_id)
              _ db1
              λ _ db2 e2.
                let t2 =
                  SameNet-Top db1 db2
                    (update_instance_status-net db1 status reason generation now current.id
                      current.workspace_id e2)
                    t1 in
                Kept-bind Top (record_eni current reason observed now) _ db2 λ _ db3 e3.
                  logged
                    (instance_event current (codes "status") (instance_state_text status)
                      current.generation reason now)
                    db3 (subst (Kept Top) e3 (record_eni-Top current reason observed now db2 t2))))

pub finish_instance_termination_tx-Top :
    (s : Instance) (now : ℕ) (db : Db) → Top db → Kept Top (finish_instance_termination_tx s now db)
unfolding finish_instance_termination_tx delete_instance_eni
finish_instance_termination_tx-Top s now db t =
    Kept-bind Top (found_or (get_instance s.workspace_id s.id) stale_snapshot) _ db
      λ current db1 e1.
        let t1 : Top db1 =
          subst Top
            (sym (
              Unchanged-ok (get_instance s.workspace_id s.id) db
                (get_instance_lem s.workspace_id s.id db)
                (on_error-ok (get_instance s.workspace_id s.id) _ db e1)))
            t in
        either (not (same_instance_decision current s) || not current.deletion_requested) _ _ db1 tt
          (Kept-bind Top (delete_instance_eni current.eni.id current.workspace_id) _ db1 λ _ db2 e2.
            let t2 = subst (Kept Top) e2 t1 in
            Kept-bind Top (delete_instance_row current.id current.workspace_id) _ db2 λ _ db3 e3.
              logged
                (instance_event current (codes "deleted") (codes "deleted") current.generation []
                  now)
                db3
                (SameNet-Top db2 db3
                  (delete_instance_row-net db2 current.id current.workspace_id e3) t2))

pub terminate_tx-Top : (id : Str) (now : ℕ) (db : Db) → Top db → Kept Top (terminate_tx id now db)
unfolding terminate_tx
terminate_tx-Top id now db t =
    Kept-bind Top (found_or (get_instance default_workspace id) (no_instance id)) _ db
      λ current db1 e1.
        let t1 : Top db1 =
          subst Top
            (sym (
              Unchanged-ok (get_instance default_workspace id) db
                (get_instance_lem default_workspace id db)
                (on_error-ok (get_instance default_workspace id) _ db e1)))
            t in
        elim (Bool-cases current.deletion_requested) [
          | inl e ↦ rw e t1
          | inr e ↦ rw e (
              Kept-bind Top (mark_instance_terminating default_workspace id now) _ db1 λ _ db2 e2.
                logged-Top _ (terminating current) db2 (
                  subst (Kept Top) e2
                    (mark_instance_terminating-Top default_workspace id now db1 t1)))
        ]
