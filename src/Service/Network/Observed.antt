-- ===== src/Service/Network/Observed.antt =====
-- internal/store/reconcile.go: RecordTopology and the invariant of the network tables.
use nephos.Base.{
  ℕ, ◌≡◌, refl, sym, ap, ◌∙◌, inl, inr, Bool, true, false, not, ◌&&◌, ◌||◌, Option, List, [], ◌∷◌,
  ltb, ◌==◌, if◌then◌else◌, Bool-cases, &&-split, keep, any, All, Str, codes, str_eq, str_eq_sound,
  str_eq_iff, Result, ok, err,
}
use mathlib.Core.Path.{subst}
use nephos.Model.{Vpc, Subnet}
use nephos.Errors.{Error}
use nephos.Store.Tables.{Db, VpcRow, SubnetRow}
use nephos.Store.Tx.{Tx, found_or}
use nephos.Store.Tx.Kept.{Kept, Unchanged-ok, on_error-ok}
use nephos.Store.Topology.{update_vpcs-IsTopology, update_subnets-IsTopology}
use nephos.Store.Vpcs.{vpc_key}
use nephos.Store.Subnets.{subnet_key}
use nephos.Store.Log.{Event, append_event}
use nephos.Store.Resources.{get_vpc, list_subnets_by_vpc, read_rows, subnet_from_row}
use nephos.Service.Network.Effects.{Top}
use nephos.Store.Rows.{All-map}
use nephos.Errors.{stale_snapshot}
use nephos.Store.Tables.{same_key}
use nephos.Store.Rows.{All-const}
use nephos.Store.Tx.Kept.{Kept-bind}
use nephos.Store.Topology.{delete_vpcs-IsTopology, delete_subnets-IsTopology}
use nephos.Store.Vpcs.{update_vpc_status, delete_vpc_row}
use nephos.Store.Subnets.{update_subnet_status, delete_subnet_row}
use nephos.Model.{State, state_eq}
use nephos.Store.Reconcile.{
  record_vpc_status, record_subnet_status, record_child, record_children, finish_vpc,
  record_topology_tx, vpc_event, subnet_event, state_text, same_desired_vpc, same_desired_children,
  is_applied,
}
use nephos.Service.Network.Effects.{
  SameNet-Top, append_event-net, list_subnets_by_vpc-ok, no_children,
}
use nephos.Service.Network.Marks.{get_vpc_lem}

pub logged : (e : Event) (db : Db) → Top db → Kept Top (append_event e db)
logged e db t = go (append_event e db) refl
  where
    go : (r : Result Error (Unit {0} × Db)) → append_event e db ≡ r → Kept Top r
    go (ok (u, db')) h = SameNet-Top db db' (append_event-net db e h) t
    go (err x) h = tt

module _ {A : Type 0} where
  pub either :
      (b : Bool) (m n : Tx A) (db : Db)
      → Kept Top (m db)
      → Kept Top (n db)
      → Kept Top ((if b then m else n) db)
  either true m n db h k = h
  either false m n db h k = k

update_vpc_status-Top :
    (state : State) (reason : Str) (observed now : ℕ) (id w : Str) (db : Db)
    → Top db
    → Kept Top (update_vpc_status state reason observed now id w db)
unfolding update_vpc_status
update_vpc_status-Top state reason observed now id w db t =
    elim (Bool-cases (any (λ r. vpc_key id w r && ltb r.generation observed) db.vpcs)) [
      | inl e ↦ rw e tt
      | inr e ↦ rw e (
          update_vpcs-IsTopology (vpc_key id w) _ (λ v. refl) (λ v. refl) (λ v. refl)
            (All-const _ db.subnets (λ s v k. flag_kept v (vpc_key id w v))) t)
    ]
  where
    flag_kept :
        (v : VpcRow) (b : Bool)
        → (if b
            then record v {
              state = state;
              state_reason = reason;
              observed_generation = observed;
              updated_at = now;
            }
            else v).deletion_requested
          ≡ v.deletion_requested
    flag_kept v true = refl
    flag_kept v false = refl

update_subnet_status-Top :
    (state : State) (reason : Str) (observed now : ℕ) (id w : Str) (db : Db)
    → Top db
    → Kept Top (update_subnet_status state reason observed now id w db)
unfolding update_subnet_status
update_subnet_status-Top state reason observed now id w db t =
    elim (Bool-cases (any (λ r. subnet_key id w r && ltb r.generation observed) db.subnets)) [
      | inl e ↦ rw e tt
      | inr e ↦
          rw e (update_subnets-IsTopology (subnet_key id w) _ (λ v. refl) (λ v. refl) (λ v. refl) t)
    ]

delete_subnet_row-Top : (id w : Str) (db : Db) → Top db → Kept Top (delete_subnet_row id w db)
unfolding delete_subnet_row
delete_subnet_row-Top id w db t =
    elim (Bool-cases (
      any (subnet_key id w) db.subnets
      && (any (λ r. same_key id w r.subnet_id r.workspace_id) db.instances
          || any (λ r. same_key id w r.subnet_id r.workspace_id) db.enis))) [
            | inl e ↦ rw e tt
            | inr e ↦ rw e (delete_subnets-IsTopology (λ r. not (subnet_key id w r)) t)
          ]

-- A VPC without a subnet may go.
delete_vpc_row-Top :
    (id w : Str) (db : Db)
    → All (λ s. str_eq id s.vpc_id ≡ false) db.subnets
    → Top db
    → Kept Top (delete_vpc_row id w db)
unfolding delete_vpc_row
delete_vpc_row-Top id w db none_there t =
    elim (Bool-cases
      (any (vpc_key id w) db.vpcs && any (λ s. same_key id w s.vpc_id s.workspace_id) db.subnets)) [
        | inl e ↦ rw e tt
        | inr e ↦ rw e (
            delete_vpcs-IsTopology (λ r. not (vpc_key id w r))
              (All-map (λ s. str_eq id s.vpc_id ≡ false) _ db.subnets (λ s. spared s) none_there) t)
      ]
  where
    spared :
        (s : SubnetRow)
        → str_eq id s.vpc_id ≡ false
        → (v : VpcRow) → vpc_key s.vpc_id s.workspace_id v ≡ true
        → not (vpc_key id w v) ≡ true
    spared s other v k = elim (Bool-cases (vpc_key id w v)) [
      | inl e ↦
          let a = str_eq_sound id v.id (&&-split _ _ e).0 in
          let b = str_eq_sound s.vpc_id v.id (&&-split _ _ k).0 in
          absurd (cc (other, (str_eq_iff id s.vpc_id).1 (a ∙ sym b)))
      | inr e ↦ rw e refl
    ]

record_vpc_status-Top :
    (v : Vpc) (state : State) (reason : Str) (observed : Bool) (now : ℕ) (db : Db)
    → Top db
    → Kept Top (record_vpc_status v state reason observed now db)
unfolding record_vpc_status
record_vpc_status-Top v state reason observed now db t =
    either
      (state_eq v.state state
        && (str_eq v.state_reason reason && (v.observed_generation == generation)))
      _ _ db t
      (Kept-bind Top (update_vpc_status state reason generation now v.id v.workspace_id) _ db
        λ _ db1 e1. logged (vpc_event v (codes "status") (state_text state) reason now) db1 (
          subst (Kept Top) e1
            (update_vpc_status-Top state reason generation now v.id v.workspace_id db t)))
  where
    generation : ℕ
    generation = if observed then v.generation else v.observed_generation

record_subnet_status-Top :
    (s : Subnet) (state : State) (reason : Str) (observed : Bool) (now : ℕ) (db : Db)
    → Top db
    → Kept Top (record_subnet_status s state reason observed now db)
unfolding record_subnet_status
record_subnet_status-Top s state reason observed now db t =
    either
      (state_eq s.state state
        && (str_eq s.state_reason reason && (s.observed_generation == generation)))
      _ _ db t
      (Kept-bind Top (update_subnet_status state reason generation now s.id s.workspace_id) _ db
        λ _ db1 e1. logged (subnet_event s (codes "status") (state_text state) reason now) db1 (
          subst (Kept Top) e1
            (update_subnet_status-Top state reason generation now s.id s.workspace_id db t)))
  where
    generation : ℕ
    generation = if observed then s.generation else s.observed_generation

record_child-Top :
    (state : State) (reason : Str) (applied : Bool) (now : ℕ) (c : Subnet) (db : Db)
    → Top db
    → Kept Top (record_child state reason applied now c db)
unfolding record_child
record_child-Top state reason applied now c db t =
    either (c.deletion_requested && applied) _ _ db
      (Kept-bind Top (delete_subnet_row c.id c.workspace_id) _ db λ _ db1 e1.
        logged (subnet_event c (codes "deleted") (codes "deleted") [] now) db1
          (subst (Kept Top) e1 (delete_subnet_row-Top c.id c.workspace_id db t)))
      (record_subnet_status-Top c state reason applied now db t)

record_children-Top :
    (state : State) (reason : Str) (applied : Bool) (now : ℕ) (cs : List Subnet) (db : Db)
    → Top db
    → Kept Top (record_children state reason applied now cs db)
unfolding record_children
record_children-Top state reason applied now [] db t = t
record_children-Top state reason applied now (c ∷ cs) db t =
    Kept-bind Top (record_child state reason applied now c) _ db λ _ db1 e1.
      record_children-Top state reason applied now cs db1
        (subst (Kept Top) e1 (record_child-Top state reason applied now c db t))

finish_vpc-Top :
    (v : Vpc) (children : List Subnet) (now : ℕ) (db : Db)
    → (children ≡ [] → All (λ s. str_eq v.id s.vpc_id ≡ false) db.subnets)
    → Top db
    → Kept Top (finish_vpc v children now db)
unfolding finish_vpc
finish_vpc-Top v (c ∷ cs) now db none_there t = tt
finish_vpc-Top v [] now db none_there t =
    Kept-bind Top (delete_vpc_row v.id v.workspace_id) _ db λ _ db1 e1.
      logged (vpc_event v (codes "deleted") (codes "deleted") [] now) db1
        (subst (Kept Top) e1 (delete_vpc_row-Top v.id v.workspace_id db (none_there refl) t))

pub record_topology_tx-Top :
    (v : Vpc) (subnets : List Subnet) (effect : Option Str) (now : ℕ) (db : Db)
    → Top db
    → Kept Top (record_topology_tx v subnets effect now db)
unfolding record_topology_tx
record_topology_tx-Top v subnets effect now db t =
    Kept-bind Top (found_or (get_vpc v.workspace_id v.id) stale_snapshot) _ db λ current db1 e1.
      let same =
        Unchanged-ok (get_vpc v.workspace_id v.id) db (get_vpc_lem v.workspace_id v.id db)
          (on_error-ok (get_vpc v.workspace_id v.id) _ db e1) in
      let t1 : Top db1 = subst Top (sym same) t in
      either (not (same_desired_vpc current v)) _ _ db1 tt (
        Kept-bind Top (list_subnets_by_vpc v.id) _ db1 λ children db2 e2.
          let (listed, same') = list_subnets_by_vpc-ok v.id db1 e2 in
          let t2 : Top db2 = subst Top (sym same') t1 in
          either (not (same_desired_children children subnets)) _ _ db2 tt (
            either (v.deletion_requested && is_applied effect) _ _ db2
              (finish_vpc-Top v children now db2
                (λ empty. no_children v.id db2.subnets (
                  subst
                    (λ d.
                      read_rows subnet_from_row (keep (λ r. str_eq v.id r.vpc_id) d.subnets)
                      ≡ ok [])
                    (sym same') (listed ∙ ap ok empty)))
                t2)
              (Kept-bind Top (record_vpc_status current _ _ _ now) _ db2 λ _ db3 e3.
                record_children-Top _ _ _ now children db3
                  (subst (Kept Top) e3 (record_vpc_status-Top current _ _ _ now db2 t2)))))
