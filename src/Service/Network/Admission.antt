-- ===== src/Service/Network/Admission.antt =====
-- internal/service/network.go: the checks of CreateSubnet, and the subnet that it inserts.
use nephos.Store.Rows.{find_first_sound}
use nephos.Base.{
  ℕ, ◌≡◌, refl, sym, ap, ◌∙◌, Bool, true, false, Option, none, some, List, [], map, arith,
  if◌then◌else◌, &&-split, find_first, All, Str, codes, str_eq, keep, str_eq_sound, Result, ok,
}
use mathlib.Core.Path.{subst}
use nephos.Netip.{Prefix}
use nephos.Netip.Text.{parse_prefix, print_prefix}
use nephos.Model.{Vpc, Subnet}
use nephos.Errors.{Error}
use nephos.Store.Tables.{Db, VpcRow, SubnetRow}
use nephos.Store.Tx.{reading, fail, on_error, absent, Tx, found_or, ◌>>=◌, ◌>>◌}
use nephos.Store.Tx.Kept.{
  Kept, Kept-bind, Unchanged-ok, absent_lem, reading-ok, bind-ok, on_error-ok,
}
use nephos.Store.Topology.{Apart, Hosted, Parent, insert_subnet-IsTopology}
use nephos.Store.Vpcs.{vpc_key}
use nephos.Service.Validate.{validate_subnet_range, validate_subnet_disjoint}
use nephos.Service.Validate.Containment.{ClearOf, disjoint_iff}
use nephos.Store.Resources.{
  read_rows, subnet_from_row, allocate_index, get_subnet_by_name, insert_subnet_model, get_vpc,
  list_subnets_by_vpc,
}
use nephos.Store.Subnets.{new_subnet_row}
use nephos.Store.Reconcile.{subnet_event, state_text}
use nephos.Service.Validate.Cidr.{IsCanonical}
use nephos.Service.Idempotency.{Codec, default_workspace, load_replay, or_replay}
use nephos.Service.Network.{
  name_conflict, no_vpc, depends, create_subnet_tx, insert_pending_subnet, pending_subnet,
  as_subnet_conflict, check_parent, check_block, CreateSubnetInput,
}
use nephos.Service.Network.Marks.{load_replay_lem}
use nephos.Service.Network.Effects.{
  Top, SameNet-Top, allocate_index-net, get_vpc-ReadVpc, list_subnets_by_vpc-ok, siblings-Apart,
  canonical-IsBlock, canonical-parse, some_inj, insert_subnet-inv,
}
use nephos.Service.Network.Invariant.{recorded-Top}

-- the row that InsertSubnet stores
abbrev row_of : Subnet → ℕ → SubnetRow
row_of s now =
    new_subnet_row s.id s.workspace_id s.vpc_id s.short_index s.name (print_prefix s.cidr_block)
      s.availability_zone now

insert_subnet_model-Top :
    (s : Subnet) (now : ℕ) (db : Db) {u : Unit {0}} {db' : Db}
    → IsCanonical s.cidr_block
    → Parent db.vpcs (row_of s now)
    → All (Apart (row_of s now)) db.subnets
    → insert_subnet_model s now db ≡ ok (u, db')
    → Top db
    → Top db'
unfolding insert_subnet_model
insert_subnet_model-Top s now db c parent apart h t =
    let row = row_of s now in
    let (p, q) = insert_subnet-inv row db h in
    rw (p, q) (insert_subnet-IsTopology row (canonical-IsBlock s.cidr_block c) parent apart t)

-- What CreateSubnet has checked of a block: it lies in a live VPC, and overlaps no sibling.
record Admitted (vpc_id : Str) (cidr : Prefix) (db : Db) : Type 0 where
  row : VpcRow
  block : Prefix
  found : find_first (vpc_key vpc_id default_workspace) db.vpcs ≡ some row
  live : row.deletion_requested ≡ false
  holds : parse_prefix row.cidr_block ≡ some block
  inside : validate_subnet_range block cidr ≡ ok tt
  children : List Subnet
  listed : read_rows subnet_from_row (keep (λ r. str_eq vpc_id r.vpc_id) db.subnets) ≡ ok children
  clear : ClearOf cidr (map (λ s. s.cidr_block) children)

module _ {A : Type 0} where
  if_fail-ok :
      (b : Bool) (e : Error) (m : Tx A) (db : Db) {r : A × Db}
      → (if b then fail e else m) db ≡ ok r
      → (b ≡ false) × (m db ≡ ok r)
  if_fail-ok true e m db h = absurd (ground arith)
  if_fail-ok false e m db h = (refl, h)

-- the two checks that CreateSubnet makes of a block in a VPC
record Checked (vpc : Vpc) (cidr : Prefix) (db : Db) : Type 0 where
  inside : validate_subnet_range vpc.cidr_block cidr ≡ ok tt
  children : List Subnet
  listed : read_rows subnet_from_row (keep (λ r. str_eq vpc.id r.vpc_id) db.subnets) ≡ ok children
  clear : ClearOf cidr (map (λ s. s.cidr_block) children)

unit_result : (r : Result Error (Unit {0})) {u : Unit {0}} → r ≡ ok u → r ≡ ok tt
unit_result r h = h

check_block-Checked :
    (vpc : Vpc) (cidr : Prefix) (db : Db) {v : Vpc} {db' : Db}
    → check_block vpc cidr db ≡ ok (v, db')
    → Checked vpc cidr db × (v ≡ vpc) × (db' ≡ db)
unfolding check_block
check_block-Checked vpc cidr db h =
    let (u, db1, e1, r1) = bind-ok (reading (validate_subnet_range vpc.cidr_block cidr)) _ db h in
    let (a, b) = reading-ok (validate_subnet_range vpc.cidr_block cidr) db e1 in
    let (xs, db2, e2, r2) = bind-ok (list_subnets_by_vpc vpc.id) _ db1 r1 in
    let (c, d) = list_subnets_by_vpc-ok vpc.id db1 e2 in
    let (w, db3, e3, r3) =
      bind-ok (reading (validate_subnet_disjoint cidr (map (λ s. s.cidr_block) xs))) _ db2 r2 in
    let (f, g) = reading-ok (validate_subnet_disjoint cidr (map (λ s. s.cidr_block) xs)) db2 e3 in
    (
      record {
        inside = unit_result _ a;
        children = xs;
        listed =
            subst
              (λ d.
                read_rows subnet_from_row (keep (λ r. str_eq vpc.id r.vpc_id) d.subnets) ≡ ok xs)
              b c;
        clear = (disjoint_iff cidr (map (λ s. s.cidr_block) xs)).0 (unit_result _ f);
      },
      ground arith,
      ground (arith, g, d, b),
    )

check_parent-Admitted :
    (vpc_id : Str) (cidr : Prefix) (db : Db) {v : Vpc} {db' : Db}
    → check_parent vpc_id cidr db ≡ ok (v, db')
    → Admitted vpc_id cidr db × (v.id ≡ vpc_id) × (db' ≡ db)
unfolding check_parent
check_parent-Admitted vpc_id cidr db h =
    let (vpc, db1, e1, r1) =
      bind-ok (found_or (get_vpc default_workspace vpc_id) (no_vpc vpc_id)) _ db h in
    let shown =
      get_vpc-ReadVpc default_workspace vpc_id db
        (on_error-ok (get_vpc default_workspace vpc_id) _ db e1) in
    let (live, r2) =
      if_fail-ok vpc.deletion_requested (depends vpc.id) (check_block vpc cidr) db1 r1 in
    let (c, d, f) = check_block-Checked vpc cidr db1 r2 in
    let key =
      str_eq_sound vpc_id shown.row.id
        (&&-split _ _
          (find_first_sound (vpc_key vpc_id default_workspace) db.vpcs shown.found)).0 in
    let named : vpc.id ≡ vpc_id = shown.same_id ∙ sym key in
    (
      record {
        row = shown.row;
        block = vpc.cidr_block;
        found = shown.found;
        live = sym shown.same_flag ∙ live;
        holds = shown.block;
        inside = c.inside;
        children = c.children;
        listed =
            subst
              (λ i.
                read_rows subnet_from_row (keep (λ r. str_eq i r.vpc_id) db.subnets)
                ≡ ok c.children)
              named
              (subst
                (λ d.
                  read_rows subnet_from_row (keep (λ r. str_eq vpc.id r.vpc_id) d.subnets)
                  ≡ ok c.children)
                shown.same_db c.listed);
        clear = c.clear;
      },
      ap (λ v. v.id) d ∙ named,
      f ∙ shown.same_db,
    )

Admitted-Parent :
    (vpc_id : Str) (cidr : Prefix) (db : Db)
    → IsCanonical cidr
    → Admitted vpc_id cidr db
    → Hosted (find_first (vpc_key vpc_id default_workspace) db.vpcs) (print_prefix cidr)
Admitted-Parent vpc_id cidr db c a =
    subst (λ o. Hosted o (print_prefix cidr)) (sym a.found)
      (
        a.live,
        λ p q i j.
            subst (λ z. validate_subnet_range z q ≡ ok tt) (some_inj a.block p (sym a.holds ∙ i))
              (subst (λ z. validate_subnet_range a.block z ≡ ok tt)
                (some_inj cidr q (sym (canonical-parse cidr c) ∙ j)) a.inside),
      )

insert_pending_subnet-Top :
    (codec : Codec Subnet) (input : CreateSubnetInput) (id vpc name : Str) (cidr : Prefix)
    (key hash : Str) (now : ℕ) (db : Db)
    → IsCanonical cidr
    → Admitted vpc cidr db
    → Top db
    → Kept Top (insert_pending_subnet codec input id vpc name cidr key hash now db)
unfolding insert_pending_subnet
insert_pending_subnet-Top codec input id vpc name cidr key hash now db c a t =
    Kept-bind Top (allocate_index (codes "subnet") id) _ db λ index db1 e1.
      let subnet = pending_subnet id vpc name cidr input.availability_zone index in
      Kept-bind Top (on_error (insert_subnet_model subnet now) (as_subnet_conflict input.vpc_id)) _
        db1
        λ _ db2 e2.
          let same = allocate_index-net db (codes "subnet") id e1 in
          recorded-Top (subnet_event subnet (codes "created") (state_text subnet.state) [] now)
            codec (codes "create-subnet") key hash id subnet now db2
            (insert_subnet_model-Top subnet now db1 c
              (subst
                (λ vs. Hosted (find_first (vpc_key vpc default_workspace) vs) (print_prefix cidr))
                (sym same.0) (Admitted-Parent vpc cidr db c a))
              (subst (All (Apart (row_of subnet now))) (sym same.1) (
                siblings-Apart (row_of subnet now) cidr db.subnets a.children
                  (canonical-parse cidr c) a.listed a.clear))
              (on_error-ok (insert_subnet_model subnet now) _ db1 e2) (SameNet-Top db db1 same t))

pub create_subnet_tx-Top :
    (codec : Codec Subnet) (input : CreateSubnetInput) (id name : Str) (cidr : Prefix)
    (key hash : Str) (now : ℕ) (db : Db)
    → IsCanonical cidr
    → Top db
    → Kept Top (create_subnet_tx codec input id name cidr key hash now db)
unfolding create_subnet_tx
create_subnet_tx-Top codec input id name cidr key hash now db c t =
    Kept-bind Top (load_replay codec (codes "create-subnet") key hash now) _ db λ replay db1 e1.
      replayed replay db1 (
        subst Top
          (sym (
            Unchanged-ok (load_replay codec (codes "create-subnet") key hash now) db
              (load_replay_lem codec (codes "create-subnet") key hash now db) e1))
          t)
  where
    fresh :
        (vpc : Vpc) (db1 : Db)
        → vpc.id ≡ input.vpc_id
        → Admitted input.vpc_id cidr db1
        → Top db1
        → Kept Top (
            (absent (get_subnet_by_name default_workspace name) name_conflict
                >> insert_pending_subnet codec input id vpc.id name cidr key hash now)
              db1)
    fresh vpc db1 same a t1 =
        Kept-bind Top (absent (get_subnet_by_name default_workspace name) name_conflict) _ db1
          λ _ db2 e2.
            let back = sym (
              Unchanged-ok (absent (get_subnet_by_name default_workspace name) name_conflict) db1
                (absent_lem (get_subnet_by_name default_workspace name) name_conflict db1) e2) in
            insert_pending_subnet-Top codec input id vpc.id name cidr key hash now db2 c
              (subst (λ i. Admitted i cidr db2) (sym same)
                (subst (Admitted input.vpc_id cidr) back a))
              (subst Top back t1)

    replayed :
        (r : Option Subnet) (db1 : Db)
        → Top db1
        → Kept Top (
            or_replay r
              (check_parent input.vpc_id cidr >>= λ vpc.
                absent (get_subnet_by_name default_workspace name) name_conflict
                >> insert_pending_subnet codec input id vpc.id name cidr key hash now)
              db1)
    replayed (some v) db1 t1 = t1
    replayed none db1 t1 = Kept-bind Top (check_parent input.vpc_id cidr) _ db1 λ vpc db2 e2.
        let (a, named, same) = check_parent-Admitted input.vpc_id cidr db1 e2 in
        fresh vpc db2 named (subst (Admitted input.vpc_id cidr) (sym same) a)
          (subst Top (sym same) t1)
