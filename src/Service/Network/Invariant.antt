-- ===== src/Service/Network/Invariant.antt =====
-- internal/service/network.go: CreateVPC and the two deletions, and the invariant of the network
-- tables.
use nephos.Base.{
  ℕ, ◌≡◌, refl, sym, ◌∙◌, ◌⊎◌, inl, inr, Bool, true, false, not, Option, none, some, List, [], ◌∷◌,
  ◌==◌, if◌then◌else◌, Bool-cases, All, Str, codes, str_eq, ok,
}
use mathlib.Core.Path.{subst}
use nephos.Netip.{Prefix}
use nephos.Netip.Text.{print_prefix}
use nephos.Model.{Vpc, Subnet}
use nephos.Store.Tables.{Db}
use nephos.Store.Tx.{pure, fail, on_error, absent, found_or, ◌>>=◌, ◌>>◌}
use nephos.Store.Tx.Kept.{Kept, Kept-bind, Unchanged-ok, absent_lem, on_error-ok}
use nephos.Store.Topology.{insert_vpc-IsTopology}
use nephos.Store.Vpcs.{new_vpc_row}
use nephos.Store.Resources.{
  allocate_index, insert_vpc_model, get_vpc_by_name, get_subnet, mark_vpc_deleting,
  mark_subnet_deleting, get_vpc, list_subnets_by_vpc,
}
use nephos.Store.Log.{append_event, Event}
use nephos.Store.Subnets.{count_instances_in_subnet}
use nephos.Store.Reconcile.{vpc_event, state_text}
use nephos.Service.Validate.Cidr.{IsCanonical}
use nephos.Service.Idempotency.{Codec, default_workspace, load_replay, save_replay, or_replay}
use nephos.Service.Network.{
  create_vpc_tx, insert_pending_vpc, pending_vpc, as_name_conflict, name_conflict, delete_vpc_tx,
  no_vpc, depends, start_vpc_deletion, start_subnet_deletion, delete_subnet_tx, no_subnet,
}
use nephos.Service.Network.Marks.{
  load_replay_lem, get_vpc_lem, get_subnet_lem, mark_vpc_deleting-Top, mark_subnet_deleting-Top,
}
use nephos.Service.Network.Effects.{
  Top, SameNet-Top, allocate_index-net, append_event-net, save_replay-net, list_subnets_by_vpc-ok,
  no_children, canonical-IsBlock, insert_vpc-inv,
}

List-cases : (xs : List Subnet) → (xs ≡ []) ⊎ ((y : Subnet) × (ys : List Subnet) × (xs ≡ y ∷ ys))
List-cases [] = inl refl
List-cases (y ∷ ys) = inr (y, ys, refl)

insert_vpc_model-Top :
    (v : Vpc) (now : ℕ) (db : Db) {u : Unit {0}} {db' : Db}
    → IsCanonical v.cidr_block
    → insert_vpc_model v now db ≡ ok (u, db')
    → Top db
    → Top db'
unfolding insert_vpc_model
insert_vpc_model-Top v now db c h t =
    let row =
      new_vpc_row v.id v.workspace_id v.short_index v.name (print_prefix v.cidr_block) now in
    let (fresh, p, q) = insert_vpc-inv row db h in
    rw (p, q) (insert_vpc-IsTopology row (canonical-IsBlock v.cidr_block c) fresh t)

module _ {A : Type 0} where
  -- the end of a creation: its event and its idempotency record
  pub recorded-Top :
      (e : Event) (codec : Codec A) (operation key hash id : Str) (a : A) (now : ℕ) (db : Db)
      → Top db
      → Kept {A = A × Bool} Top (
          ◌>>=◌
            (append_event e)
            (λ _. ◌>>=◌ (save_replay codec operation key hash id a now) (λ _. pure (a, true)))
            db)
  recorded-Top e codec operation key hash id a now db t =
      Kept-bind Top (append_event e) _ db λ _ db1 e1.
        Kept-bind Top (save_replay codec operation key hash id a now) (λ _. pure (a, true)) db1
          λ _ db2 e2.
            SameNet-Top db1 db2 (save_replay-net db1 codec operation key hash id a now e2)
              (SameNet-Top db db1 (append_event-net db e e1) t)

  pub logged-Top :
      (e : Event) (a : A) (db : Db)
      → Top db
      → Kept {A = A × Bool} Top (◌>>=◌ (append_event e) (λ _. pure (a, true)) db)
  logged-Top e a db t =
      Kept-bind Top (append_event e) (λ _. pure (a, true)) db
        λ _ db1 e1. SameNet-Top db db1 (append_event-net db e e1) t

insert_pending_vpc-Top :
    (codec : Codec Vpc) (id name : Str) (cidr : Prefix) (key hash : Str) (now : ℕ) (db : Db)
    → IsCanonical cidr
    → Top db
    → Kept Top (insert_pending_vpc codec id name cidr key hash now db)
unfolding insert_pending_vpc
insert_pending_vpc-Top codec id name cidr key hash now db c t =
    Kept-bind Top (allocate_index (codes "vpc") id) _ db λ index db1 e1.
      let vpc = pending_vpc id name cidr index in
      Kept-bind Top (on_error (insert_vpc_model vpc now) as_name_conflict) _ db1 λ _ db2 e2.
        recorded-Top (vpc_event vpc (codes "created") (state_text vpc.state) [] now) codec
          (codes "create-vpc") key hash id vpc now db2
          (insert_vpc_model-Top vpc now db1 c
            (on_error-ok (insert_vpc_model vpc now) as_name_conflict db1 e2)
            (SameNet-Top db db1 (allocate_index-net db (codes "vpc") id e1) t))

pub create_vpc_tx-Top :
    (codec : Codec Vpc) (id name : Str) (cidr : Prefix) (key hash : Str) (now : ℕ) (db : Db)
    → IsCanonical cidr
    → Top db
    → Kept Top (create_vpc_tx codec id name cidr key hash now db)
unfolding create_vpc_tx
create_vpc_tx-Top codec id name cidr key hash now db c t =
    Kept-bind Top (load_replay codec (codes "create-vpc") key hash now) _ db λ replay db1 e1.
      replayed replay db1 (
        subst Top
          (sym (
            Unchanged-ok (load_replay codec (codes "create-vpc") key hash now) db
              (load_replay_lem codec (codes "create-vpc") key hash now db) e1))
          t)
  where
    replayed :
        (r : Option Vpc) (db1 : Db)
        → Top db1
        → Kept Top (
            or_replay r
              (absent (get_vpc_by_name default_workspace name) name_conflict
                >> insert_pending_vpc codec id name cidr key hash now)
              db1)
    replayed (some v) db1 t1 = t1
    replayed none db1 t1 =
        Kept-bind Top (absent (get_vpc_by_name default_workspace name) name_conflict) _ db1
          λ _ db2 e2. insert_pending_vpc-Top codec id name cidr key hash now db2 c (
            subst Top
              (sym (
                Unchanged-ok (absent (get_vpc_by_name default_workspace name) name_conflict) db1
                  (absent_lem (get_vpc_by_name default_workspace name) name_conflict db1) e2))
              t1)

start_vpc_deletion-Top :
    (id : Str) (now : ℕ) (vpc : Vpc) (db : Db)
    → All (λ s. str_eq id s.vpc_id ≡ false) db.subnets
    → Top db
    → Kept Top (start_vpc_deletion id now vpc db)
unfolding start_vpc_deletion
start_vpc_deletion-Top id now vpc db none_there t = elim (Bool-cases vpc.deletion_requested) [
  | inl e ↦ rw e t
  | inr e ↦ rw e (
      Kept-bind Top (mark_vpc_deleting default_workspace id now) _ db λ result db1 e1.
        logged-Top _ result db1
          (subst (Kept Top) e1 (mark_vpc_deleting-Top default_workspace id now db none_there t)))
]

pub delete_vpc_tx-Top : (id : Str) (now : ℕ) (db : Db) → Top db → Kept Top (delete_vpc_tx id now db)
unfolding delete_vpc_tx
delete_vpc_tx-Top id now db t =
    Kept-bind Top (found_or (get_vpc default_workspace id) (no_vpc id)) _ db λ vpc db1 e1.
      let same =
        Unchanged-ok (get_vpc default_workspace id) db (get_vpc_lem default_workspace id db)
          (on_error-ok (get_vpc default_workspace id) _ db e1) in
      Kept-bind Top (list_subnets_by_vpc id) _ db1 λ children db2 e2.
        let (listed, same') = list_subnets_by_vpc-ok id db1 e2 in
        elim (List-cases children) [
          | inl empty ↦ rw empty (
              subst (λ d. Kept Top (start_vpc_deletion id now vpc d)) (sym (same' ∙ same))
                (start_vpc_deletion-Top id now vpc db
                  (no_children id db.subnets (rw (← empty, ← same) listed)) t))
          | inr (c, cs, more) ↦ rw more tt
        ]

start_subnet_deletion-Top :
    (id : Str) (now : ℕ) (subnet : Subnet) (db : Db)
    → Top db
    → Kept Top (start_subnet_deletion id now subnet db)
unfolding start_subnet_deletion
start_subnet_deletion-Top id now subnet db t = elim (Bool-cases subnet.deletion_requested) [
  | inl e ↦ rw e t
  | inr e ↦ rw e (
      Kept-bind Top (mark_subnet_deleting default_workspace id now) _ db λ result db1 e1.
        logged-Top _ result db1
          (subst (Kept Top) e1 (mark_subnet_deleting-Top default_workspace id now db t)))
]

pub delete_subnet_tx-Top :
    (id : Str) (now : ℕ) (db : Db) → Top db → Kept Top (delete_subnet_tx id now db)
unfolding delete_subnet_tx
delete_subnet_tx-Top id now db t =
    Kept-bind Top (found_or (get_subnet default_workspace id) (no_subnet id)) _ db λ subnet db1 e1.
      let same =
        Unchanged-ok (get_subnet default_workspace id) db (get_subnet_lem default_workspace id db)
          (on_error-ok (get_subnet default_workspace id) _ db e1) in
      unused subnet (count_instances_in_subnet id db1 == 0) db1 (subst Top (sym same) t)
  where
    unused :
        (subnet : Subnet) (b : Bool) (db1 : Db)
        → Top db1
        → Kept Top ((if not b then fail (depends id) else start_subnet_deletion id now subnet) db1)
    unused subnet true db1 t1 = start_subnet_deletion-Top id now subnet db1 t1
    unused subnet false db1 t1 = tt
