-- ===== src/Kernel/Gateways/Snapshot.antt =====
-- internal/store and internal/network/topology: what the topology invariant says of the snapshots
-- that are read from the database.
use nephos.Base.{
  ◌≡◌, sym, ◌∙◌, inl, inr, Bool, true, false, some, List, [], ◌∷◌, Bool-cases, &&-split, arith,
  keep, find_first, All, Str, codes, str_eq, str_eq_sound, Result, ok, err,
}
use mathlib.Core.Path.{subst}
use nephos.Netip.{Prefix}
use nephos.Netip.Text.{parse_prefix}
use nephos.Model.{Vpc, Subnet}
use nephos.Errors.{Error}
use nephos.Store.Tables.{Db, SubnetRow}
use nephos.Store.Rows.{
  All-found, All-map, find_first_sound, All-keep, All-zip, Pairwise, Pairwise-keep,
}
use nephos.Store.Topology.{IsBlock, Hosted, Parent, Apart}
use nephos.Store.Vpcs.{vpc_key}
use nephos.Store.Resources.{
  get_vpc, list_subnets_by_vpc, read_rows, subnet_from_row, subnet_of, block_of,
}
use nephos.Service.Validate.{validate_subnet_range, overlaps}
use nephos.Service.Validate.Cidr.{IsCanonical}
use nephos.Service.Network.Effects.{
  Top, get_vpc-ReadVpc, list_subnets_by_vpc-ok, subnet_from_row-block, push-ok, some_inj,
}

-- a subnet of the VPC, with a block of its own in the VPC's
pub record Within (v : Vpc) (s : Subnet) : Type 0 where
  pub own : s.vpc_id ≡ v.id
  pub canonical : IsCanonical s.cidr_block
  pub inside : validate_subnet_range v.cidr_block s.cidr_block ≡ ok tt

abbrev pub Disjoint : Subnet → Subnet → Type 0
Disjoint s t = overlaps s.cidr_block t.cidr_block ≡ false

subnet_of-parent :
    (row : SubnetRow) (r : Result Error Prefix) {s : Subnet}
    → subnet_of row r ≡ ok s
    → s.vpc_id ≡ row.vpc_id
subnet_of-parent row (ok p) h = ground arith
subnet_of-parent row (err e) h = absurd (ground arith)

subnet_from_row-parent :
    (row : SubnetRow) {s : Subnet} → subnet_from_row row ≡ ok s → s.vpc_id ≡ row.vpc_id
unfolding subnet_from_row
subnet_from_row-parent row h = subnet_of-parent row (block_of (parse_prefix row.cidr_block)) h

block_canonical : (s : Str) (p : Prefix) → IsBlock s → parse_prefix s ≡ some p → IsCanonical p
block_canonical s p (q, e, c) h = subst IsCanonical (some_inj q p (sym e ∙ h)) c

module _ (P : SubnetRow → Type 0) (Q : Subnet → Type 0) where
  -- What holds of the rows holds of the snapshots.
  read_rows-All :
      (rows : List SubnetRow) {subnets : List Subnet}
      → ((r : SubnetRow) (s : Subnet) → subnet_from_row r ≡ ok s → P r → Q s)
      → read_rows subnet_from_row rows ≡ ok subnets
      → All P rows
      → All Q subnets
  unfolding read_rows
  read_rows-All [] {subnets} f h ps = let e : [] ≡ subnets = ground arith in subst (All Q) e tt
  read_rows-All (r ∷ rows) f h ps =
      let (s, rest, a, b, e) = push-ok (subnet_from_row r) (read_rows subnet_from_row rows) h in
      subst (All Q) (sym e) (f r s a ps.0, read_rows-All rows f b ps.1)

kept_pass : (q : SubnetRow → Bool) (rows : List SubnetRow) → All (λ r. q r ≡ true) (keep q rows)
kept_pass q [] = tt
kept_pass q (r ∷ rows) = elim (Bool-cases (q r)) [
  | inl e ↦ rw e (e, kept_pass q rows)
  | inr e ↦ rw e (kept_pass q rows)
]

-- the rows of one VPC
abbrev OfVpc : Str → SubnetRow → Type 0
OfVpc id r = str_eq id r.vpc_id ≡ true

read_rows-Disjoint :
    (id : Str) (rows : List SubnetRow) {subnets : List Subnet}
    → read_rows subnet_from_row rows ≡ ok subnets
    → All (OfVpc id) rows
    → Pairwise Apart rows
    → Pairwise Disjoint subnets
unfolding read_rows
read_rows-Disjoint id [] {subnets} h os ps =
    let e : [] ≡ subnets = ground arith in subst (Pairwise Disjoint) e tt
read_rows-Disjoint id (r ∷ rows) h os ps =
    let (s, rest, a, b, e) = push-ok (subnet_from_row r) (read_rows subnet_from_row rows) h in
    let here = str_eq_sound id r.vpc_id os.0 in
    subst (Pairwise Disjoint) (sym e) (
      read_rows-All (λ t. OfVpc id t × Apart r t) (Disjoint s) rows
          (λ t u c (o, f).
            f (sym here ∙ str_eq_sound id t.vpc_id o) s.cidr_block u.cidr_block
              (subnet_from_row-block r a) (subnet_from_row-block t c))
          b (All-zip (OfVpc id) (Apart r) rows os.1 ps.0),
      read_rows-Disjoint id rows b os.1 ps.1,
    )

module _ (db : Db) (top : Top db) where
  pub read-canonical :
      (id : Str) (v : Vpc) {db1 : Db}
      → get_vpc (codes "default") id db ≡ ok (v, db1)
      → IsCanonical v.cidr_block
  read-canonical id v found =
      let read = get_vpc-ReadVpc (codes "default") id db found in
      block_canonical read.row.cidr_block v.cidr_block
        (All-found (λ r. IsBlock r.cidr_block) (vpc_key id (codes "default")) db.vpcs top.vpc_blocks
          read.found)
        read.block

  pub listed-Disjoint :
      (id : Str) (subnets : List Subnet) {db2 : Db}
      → list_subnets_by_vpc id db ≡ ok (subnets, db2)
      → Pairwise Disjoint subnets
  listed-Disjoint id subnets listed =
      let of_vpc = λ (r : SubnetRow). str_eq id r.vpc_id in
      read_rows-Disjoint id (keep of_vpc db.subnets) (list_subnets_by_vpc-ok id db listed).0
        (kept_pass of_vpc db.subnets) (Pairwise-keep Apart of_vpc db.subnets top.apart)

  -- what a row has to do with the VPC that was read
  Fits : SubnetRow → Type 0
  Fits r = IsBlock r.cidr_block × Parent db.vpcs r × (r.workspace_id ≡ codes "default")

  row-Within :
      (id : Str) (v : Vpc) (r : SubnetRow) (s : Subnet) {db1 : Db}
      → get_vpc (codes "default") id db ≡ ok (v, db1)
      → subnet_from_row r ≡ ok s
      → OfVpc id r
      → Fits r
      → Within v s
  unfolding Fits
  row-Within id v r s found a own (block, parent, shared) =
      let read = get_vpc-ReadVpc (codes "default") id db found in
      let key =
        (&&-split (str_eq id read.row.id) (str_eq (codes "default") read.row.workspace_id)
          (find_first_sound (vpc_key id (codes "default")) db.vpcs read.found)).0 in
      let vpc = str_eq_sound id r.vpc_id own in
      let hosted : Hosted (find_first (vpc_key id (codes "default")) db.vpcs) r.cidr_block =
        subst (λ w. Hosted (find_first (vpc_key id w) db.vpcs) r.cidr_block) shared
          (subst (λ x. Hosted (find_first (vpc_key x r.workspace_id) db.vpcs) r.cidr_block)
            (sym vpc) parent) in
      record {
        own =
            subnet_from_row-parent r a
            ∙ sym vpc
            ∙ str_eq_sound id read.row.id key
            ∙ sym read.same_id;
        canonical = block_canonical r.cidr_block s.cidr_block block (subnet_from_row-block r a);
        inside =
            (subst (λ o. Hosted o r.cidr_block) read.found hosted).1 v.cidr_block s.cidr_block
              read.block (subnet_from_row-block r a);
      }

  pub listed-Within :
      (id : Str) (v : Vpc) (subnets : List Subnet) {db1 db2 : Db}
      → All (λ s. s.workspace_id ≡ codes "default") db.subnets
      → get_vpc (codes "default") id db ≡ ok (v, db1)
      → list_subnets_by_vpc id db ≡ ok (subnets, db2)
      → All (Within v) subnets
  unfolding Fits
  listed-Within id v subnets shared found listed =
      let of_vpc = λ (r : SubnetRow). str_eq id r.vpc_id in
      let rows = keep of_vpc db.subnets in
      let fits =
        All-zip (λ r. IsBlock r.cidr_block)
          (λ r. Parent db.vpcs r × (r.workspace_id ≡ codes "default")) db.subnets top.subnet_blocks
          (All-zip (Parent db.vpcs) (λ r. r.workspace_id ≡ codes "default") db.subnets top.parents
            shared) in
      read_rows-All (λ r. OfVpc id r × Fits r) (Within v) rows
        (λ r s a (own, f). row-Within id v r s found a own f)
        (list_subnets_by_vpc-ok id db listed).0
        (All-zip (OfVpc id) Fits rows (kept_pass of_vpc db.subnets)
          (All-map _ Fits rows (λ r (a, (b, c)). (a, b, c)) (All-keep _ of_vpc db.subnets fits)))
