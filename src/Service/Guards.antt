-- ===== src/Service/Guards.antt =====
-- internal/service/network.go: what DeleteVPC and DeleteSubnet look for, and refused requests.
use nephos.Base.{
  ℕ, ◌≡◌, refl, sym, ap, ◌∙◌, Bool, true, false, not, Option, none, List, [], ◌∷◌, arith, ◌==◌,
  if◌then◌else◌, All, Str, codes, str_eq, keep, Result, ok, err, require,
}
use mathlib.Core.Path.{subst}
use nephos.Model.{Vpc, Subnet}
use nephos.Errors.{Error}
use nephos.Store.Tables.{Db}
use nephos.Store.Tx.{gets, fail, Tx, found_or, with_tx, settle}
use nephos.Store.Tx.Kept.{Unchanged-ok, bind-ok, on_error-ok}
use nephos.Store.Resources.{read_rows, subnet_from_row, get_subnet, get_vpc, list_subnets_by_vpc}
use nephos.Store.Subnets.{count_instances_in_subnet}
use nephos.Store.Reconcile.{is_nil}
use nephos.Service.Idempotency.{Codec, default_workspace}
use nephos.Service.Network.{
  delete_vpc_tx, no_vpc, depends, start_subnet_deletion, delete_subnet_tx, no_subnet,
  CreateSubnetInput,
}
use nephos.Service.Network.Marks.{get_vpc_lem, get_subnet_lem}
use nephos.Service.Network.Effects.{list_subnets_by_vpc-ok, no_children}
use nephos.Store.Reconcile.Fresh.{if_fail}
use nephos.Service.Requests.{delete_vpc, delete_subnet}
use nephos.Service.Idempotency.{Reply, reply_of}
use nephos.Base.{length}
use nephos.Errors.{invalid_parameter}
use nephos.Store.Tables.{InstanceRow}
use nephos.Store.Rows.{keep_nil}
use nephos.Store.Subnets.{known_zone}
use nephos.Service.Validate.{parse_cidr}
use nephos.Service.Names.{validate_name, validate_idempotency_key}
use nephos.Service.Ids.{new_id}
use nephos.Service.Idempotency.{checked_reply}
use nephos.Service.Requests.{create_subnet}

not_nil : (xs : List Subnet) → not (is_nil xs) ≡ false → xs ≡ []
not_nil [] h = refl
not_nil (x ∷ xs) h = absurd (ground arith)

delete_vpc_tx-childless :
    (id : Str) (now : ℕ) (db : Db) {r : Vpc × Bool} {db' : Db}
    → delete_vpc_tx id now db ≡ ok (r, db')
    → All (λ s. str_eq id s.vpc_id ≡ false) db.subnets
unfolding delete_vpc_tx
delete_vpc_tx-childless id now db h =
    let (vpc, db1, e1, r1) = bind-ok (found_or (get_vpc default_workspace id) (no_vpc id)) _ db h in
    let same =
      Unchanged-ok (get_vpc default_workspace id) db (get_vpc_lem default_workspace id db)
        (on_error-ok (get_vpc default_workspace id) _ db e1) in
    let (children, db2, e2, r2) = bind-ok (list_subnets_by_vpc id) _ db1 r1 in
    let (listed, same') = list_subnets_by_vpc-ok id db1 e2 in
    let (empty, r3) = if_fail (not (is_nil children)) (depends id) _ db2 r2 in
    no_children id db.subnets (
      subst (λ d. read_rows subnet_from_row (keep (λ r. str_eq id r.vpc_id) d.subnets) ≡ ok []) same
        (listed ∙ ap ok (not_nil children empty)))

delete_subnet_tx-unused :
    (id : Str) (now : ℕ) (db : Db) {r : Subnet × Bool} {db' : Db}
    → delete_subnet_tx id now db ≡ ok (r, db')
    → count_instances_in_subnet id db ≡ 0
unfolding delete_subnet_tx
delete_subnet_tx-unused id now db h =
    let (subnet, db1, e1, r1) =
      bind-ok (found_or (get_subnet default_workspace id) (no_subnet id)) _ db h in
    let same =
      Unchanged-ok (get_subnet default_workspace id) db (get_subnet_lem default_workspace id db)
        (on_error-ok (get_subnet default_workspace id) _ db e1) in
    let (n, db2, e2, r2) =
      bind-ok (gets (count_instances_in_subnet id))
        (λ n. if not (n == 0) then fail (depends id) else start_subnet_deletion id now subnet) db1
        r1 in
    let (empty, r3) =
      if_fail (not (n == 0)) (depends id) (start_subnet_deletion id now subnet) db2 r2 in
    let counted : count_instances_in_subnet id db1 ≡ n = ground arith in
    ap (count_instances_in_subnet id) (sym same) ∙ counted ∙ ground arith

module _ {A : Type 0} where
  reply-ok :
      (hint : A → Str) (m : Tx (A × Bool)) (db : Db) {a : A}
      → (reply_of hint (with_tx m db)).result ≡ ok a
      → (r : A × Bool) × (db' : Db) × (m db ≡ ok (r, db'))
  unfolding with_tx
  reply-ok hint m db h = go (m db) refl h
    where
      go :
          (r : Result Error ((A × Bool) × Db))
          → m db ≡ r
          → {a : A} → (reply_of hint (settle db r)).result ≡ ok a
          → (r : A × Bool) × (db' : Db) × (m db ≡ ok (r, db'))
      go (ok (r, db')) e h = (r, db', e)
      go (err x) e h = absurd (ground arith)

-- When DeleteVPC succeeds, no subnet of the database that it was called on names the VPC.
pub delete_vpc-childless :
    (id : Str) (now : ℕ) (db : Db) (v : Vpc)
    → (delete_vpc id now db).result ≡ ok v
    → All (λ s. str_eq id s.vpc_id ≡ false) db.subnets
unfolding delete_vpc
delete_vpc-childless id now db v h =
    let (r, db', e) = reply-ok _ (delete_vpc_tx id now) db h in delete_vpc_tx-childless id now db e

-- When DeleteSubnet succeeds, no instance of the database that it was called on names the
-- subnet.
pub delete_subnet-unused :
    (id : Str) (now : ℕ) (db : Db) (s : Subnet)
    → (delete_subnet id now db).result ≡ ok s
    → All (λ r. str_eq id r.subnet_id ≡ false) db.instances
unfolding delete_subnet count_instances_in_subnet
delete_subnet-unused id now db s h =
    let (r, db', e) = reply-ok _ (delete_subnet_tx id now) db h in
    keep_nil (λ r. str_eq id r.subnet_id) db.instances
      (length_nil _ (delete_subnet_tx-unused id now db e))
  where
    length_nil : (xs : List InstanceRow) → length xs ≡ 0 → xs ≡ []
    length_nil [] h = refl
    length_nil (x ∷ xs) h = absurd (ground arith)

-- A refused request has changed nothing and asks for no reconciliation.
abbrev pub Refused : {A : Type 0} → Db → Reply A → Type 0
Refused db r = (e : Error) → r.result ≡ err e → (r.db ≡ db) × (r.enqueued ≡ none)

module _ {A : Type 0} where
  pub reply-Refused :
      (hint : A → Str) (m : Tx (A × Bool)) (db : Db) → Refused db (reply_of hint (with_tx m db))
  unfolding with_tx
  reply-Refused hint m db = go (m db)
    where
      go : (r : Result Error ((A × Bool) × Db)) → Refused db (reply_of hint (settle db r))
      go (ok ((a, true), db')) e h = absurd (ground arith)
      go (ok ((a, false), db')) e h = absurd (ground arith)
      go (err x) e h = (refl, refl)

module _ {A B : Type 0} where
  pub checked-Refused :
      (r : Result Error B) (k : B → Db → Reply A) (db : Db)
      → ((b : B) → Refused db (k b db))
      → Refused db (checked_reply r k db)
  checked-Refused (ok b) k db f x h = f b x h
  checked-Refused (err e) k db f x h = (refl, refl)

-- A CreateSubnet that is refused, whatever the error, leaves the database as it was and enqueues
-- no ID.
pub create_subnet-refusal :
    (hash : List Str → Str) (codec : Codec Subnet) (input : CreateSubnetInput) (key : Str)
    (random : Option Str) (now : ℕ) (db : Db) (e : Error)
    → (create_subnet hash codec input key random now db).result ≡ err e
    → ((create_subnet hash codec input key random now db).db ≡ db)
      × ((create_subnet hash codec input key random now db).enqueued ≡ none)
unfolding create_subnet
create_subnet-refusal hash codec input key random now db e h =
    (checked-Refused (validate_name input.name) _ db λ name.
        checked-Refused (parse_cidr input.cidr_block) _ db λ cidr.
          checked-Refused (require (known_zone input.availability_zone) invalid_parameter) _ db λ _.
            checked-Refused (validate_idempotency_key key) _ db λ _.
              checked-Refused (new_id (codes "subnet-") random) _ db
                λ id. reply-Refused (λ s. s.vpc_id) _ db)
      e h
