-- ===== src/Service/Network/Effects.antt =====
-- internal/service/network.go: the reads and insertions of its transactions, on the tables of
-- VPCs and subnets.
use nephos.Base.{
  ℕ, ◌≡◌, refl, sym, ◌∙◌, inl, inr, false, Option, none, some, List, [], ◌∷◌, map, arith,
  Bool-cases, keep, find_first, any, All, Str, str_eq, str_eq_iff, Result, ok, err,
}
use mathlib.Core.Path.{subst}
use nephos.Netip.{Prefix, is4}
use nephos.Netip.Text.{parse_prefix, print_prefix}
use nephos.Netip.Text.RoundTrip.{parse_prefix-print_prefix}
use nephos.Model.{Vpc, Subnet}
use nephos.Errors.{Error}
use nephos.Service.Validate.Cidr.{IsCanonical}
use nephos.Store.Tables.{Db, VpcRow, SubnetRow, insert_by}
use nephos.Store.Tx.{reading}
use nephos.Store.Tx.Kept.{reading-ok, one_row-ok, bind-ok}
use nephos.Service.Validate.{overlaps}
use nephos.Service.Validate.Containment.{ClearOf}
use nephos.Store.Rows.{keep_nil}
use nephos.Store.Topology.{Apart, IsBlock, IsTopology}
use nephos.Store.Vpcs.{insert_index, insert_vpc, get_vpc_row, vpc_key}
use nephos.Store.Subnets.{insert_subnet, list_subnet_rows_by_vpc}
use nephos.Store.Log.{Event, append_event, put_idempotency}
use nephos.Store.Resources.{
  allocate_index, get_vpc, list_subnets_by_vpc, vpc_from_row, push_item, read_rows, subnet_from_row,
  block_of, vpc_of, subnet_of,
}
use nephos.Service.Idempotency.{Codec, save_replay}

-- the tables of the network are the same
abbrev pub SameNet : Db → Db → Type 0
SameNet a b = (b.vpcs ≡ a.vpcs) × (b.subnets ≡ a.subnets)

abbrev pub Top : Db → Type 0
Top db = IsTopology db.vpcs db.subnets

pub SameNet-Top : (a b : Db) → SameNet a b → Top a → Top b
SameNet-Top a b (p, q) t = rw (p, q) t

module _ (db : Db) {db' : Db} where
  pub allocate_index-net :
      (kind id : Str) {i : ℕ} → allocate_index kind id db ≡ ok (i, db') → SameNet db db'
  unfolding allocate_index insert_index
  allocate_index-net kind id h = (ground arith, ground arith)

  pub append_event-net :
      (e : Event) {u : Unit {0}} → append_event e db ≡ ok (u, db') → SameNet db db'
  unfolding append_event
  append_event-net e h = (ground arith, ground arith)

  pub save_replay-net :
      {A : Type 0} (codec : Codec A) (operation key hash id : Str) (a : A) (now : ℕ) {u : Unit {0}}
      → save_replay codec operation key hash id a now db ≡ ok (u, db')
      → SameNet db db'
  unfolding save_replay put_idempotency
  save_replay-net codec operation [] hash id a now h = (ground arith, ground arith)
  save_replay-net codec operation (c ∷ key) hash id a now h = (ground arith, ground arith)

block_of-ok : (o : Option Prefix) {p : Prefix} → block_of o ≡ ok p → o ≡ some p
unfolding is4
block_of-ok none h = absurd (ground arith)
block_of-ok (some q) h = ground arith

vpc_of-ok :
    (row : VpcRow) (r : Result Error Prefix) {v : Vpc}
    → vpc_of row r ≡ ok v
    → (r ≡ ok v.cidr_block) × (v.id ≡ row.id) × (v.deletion_requested ≡ row.deletion_requested)
vpc_of-ok row (ok p) h = (ground arith, ground arith, ground arith)
vpc_of-ok row (err e) h = absurd (ground arith)

-- What a VPC snapshot shows of its row.
pub record ReadVpc (id w : Str) (v : Vpc) (db db' : Db) : Type 0 where
  pub row : VpcRow
  pub found : find_first (vpc_key id w) db.vpcs ≡ some row
  pub block : parse_prefix row.cidr_block ≡ some v.cidr_block
  pub same_id : v.id ≡ row.id
  pub same_flag : v.deletion_requested ≡ row.deletion_requested
  pub same_db : db' ≡ db

pub get_vpc-ReadVpc :
    (w id : Str) (db : Db) {v : Vpc} {db' : Db}
    → get_vpc w id db ≡ ok (v, db')
    → ReadVpc id w v db db'
unfolding get_vpc get_vpc_row vpc_from_row
get_vpc-ReadVpc w id db h =
    let (row, db1, p, q) = bind-ok (get_vpc_row id w) (λ row. reading (vpc_from_row row)) db h in
    let (found, e) = one_row-ok (find_first (vpc_key id w) db.vpcs) db p in
    let (r, f) = reading-ok (vpc_from_row row) db1 q in
    let (b, i, d) = vpc_of-ok row (block_of (parse_prefix row.cidr_block)) r in
    record {
      row = row;
      found = found;
      block = block_of-ok (parse_prefix row.cidr_block) b;
      same_id = i;
      same_flag = d;
      same_db = f ∙ e;
    }

subnet_of-ok :
    (row : SubnetRow) (r : Result Error Prefix) {s : Subnet}
    → subnet_of row r ≡ ok s
    → r ≡ ok s.cidr_block
subnet_of-ok row (ok p) h = ground arith
subnet_of-ok row (err e) h = absurd (ground arith)

pub subnet_from_row-block :
    (row : SubnetRow) {s : Subnet}
    → subnet_from_row row ≡ ok s
    → parse_prefix row.cidr_block ≡ some s.cidr_block
unfolding subnet_from_row
subnet_from_row-block row h =
    block_of-ok (parse_prefix row.cidr_block)
      (subnet_of-ok row (block_of (parse_prefix row.cidr_block)) h)

pub list_subnets_by_vpc-ok :
    (vpc : Str) (db : Db) {xs : List Subnet} {db' : Db}
    → list_subnets_by_vpc vpc db ≡ ok (xs, db')
    → (read_rows subnet_from_row (keep (λ r. str_eq vpc r.vpc_id) db.subnets) ≡ ok xs) × (db' ≡ db)
unfolding list_subnets_by_vpc list_subnet_rows_by_vpc
list_subnets_by_vpc-ok vpc db h =
    reading-ok (read_rows subnet_from_row (keep (λ r. str_eq vpc r.vpc_id) db.subnets)) db h

read_rows-nil : (rows : List SubnetRow) → read_rows subnet_from_row rows ≡ ok [] → rows ≡ []
unfolding read_rows
read_rows-nil [] h = refl
read_rows-nil (r ∷ rows) h = ground arith

pub push-ok :
    (x : Result Error Subnet) (rest : Result Error (List Subnet)) {xs : List Subnet}
    → push_item x rest ≡ ok xs
    → (y : Subnet) × (ys : List Subnet) × (x ≡ ok y) × (rest ≡ ok ys) × (xs ≡ y ∷ ys)
push-ok (ok y) (ok ys) h = (y, ys, refl, refl, ground arith)
push-ok (ok y) (err e) h = absurd (ground arith)
push-ok (err e) rest h = absurd (ground arith)

pub some_inj : (p q : Prefix) → some p ≡ some q → p ≡ q
some_inj p q h = cc

-- A block that overlaps no listed sibling is apart from every row of the table.
pub siblings-Apart :
    (row : SubnetRow) (p : Prefix) (rows : List SubnetRow) (xs : List Subnet)
    → parse_prefix row.cidr_block ≡ some p
    → read_rows subnet_from_row (keep (λ r. str_eq row.vpc_id r.vpc_id) rows) ≡ ok xs
    → ClearOf p (map (λ s. s.cidr_block) xs)
    → All (Apart row) rows
unfolding read_rows
siblings-Apart row p [] xs e h c = tt
siblings-Apart row p (s ∷ rows) xs e h c = elim (Bool-cases (str_eq row.vpc_id s.vpc_id)) [
  | inl same ↦
      let kept = keep (λ r. str_eq row.vpc_id r.vpc_id) rows in
      let h' : push_item (subnet_from_row s) (read_rows subnet_from_row kept) ≡ ok xs =
        ground arith in
      let (y, ys, a, b, f) = push-ok (subnet_from_row s) (read_rows subnet_from_row kept) h' in
      let c' : ClearOf p (y.cidr_block ∷ map (λ s. s.cidr_block) ys) =
        subst (λ zs. ClearOf p (map (λ s. s.cidr_block) zs)) f c in
      (
        λ _ p' q i j.
            subst (λ z. overlaps z q ≡ false) (some_inj p p' (sym e ∙ i))
              (subst (λ z. overlaps p z ≡ false)
                (some_inj y.cidr_block q (sym (subnet_from_row-block s a) ∙ j)) c'.0),
        siblings-Apart row p rows ys e b c'.1,
      )
  | inr other ↦ (
    λ eq. absurd (cc (other, (str_eq_iff row.vpc_id s.vpc_id).1 eq)),
    siblings-Apart row p rows xs e (ground arith) c,
  )
]

-- A VPC for which no subnet is listed has none.
pub no_children :
    (vpc : Str) (rows : List SubnetRow)
    → read_rows subnet_from_row (keep (λ r. str_eq vpc r.vpc_id) rows) ≡ ok []
    → All (λ s. str_eq vpc s.vpc_id ≡ false) rows
no_children vpc rows h =
    keep_nil (λ r. str_eq vpc r.vpc_id) rows
      (read_rows-nil (keep (λ r. str_eq vpc r.vpc_id) rows) h)

pub canonical-parse : (p : Prefix) → IsCanonical p → parse_prefix (print_prefix p) ≡ some p
canonical-parse p c =
    subst (λ q. parse_prefix (print_prefix q) ≡ some q) (sym c.shape)
      (parse_prefix-print_prefix c.base c.len c.word (omega arith))

pub canonical-IsBlock : (p : Prefix) → IsCanonical p → IsBlock (print_prefix p)
canonical-IsBlock p c = (p, canonical-parse p c, c)

pub insert_vpc-inv :
    (row : VpcRow) (db : Db) {u : Unit {0}} {db' : Db}
    → insert_vpc row db ≡ ok (u, db')
    → (any (λ r. str_eq r.id row.id) db.vpcs ≡ false)
      × (db'.vpcs ≡ insert_by (λ r. r.id) row db.vpcs)
      × (db'.subnets ≡ db.subnets)
unfolding insert_vpc
insert_vpc-inv row db h = (ground arith, ground arith, ground arith)

pub insert_subnet-inv :
    (row : SubnetRow) (db : Db) {u : Unit {0}} {db' : Db}
    → insert_subnet row db ≡ ok (u, db')
    → (db'.vpcs ≡ db.vpcs) × (db'.subnets ≡ insert_by (λ r. r.id) row db.subnets)
unfolding insert_subnet
insert_subnet-inv row db h = (ground arith, ground arith)
