-- ===== src/Store/Topology.antt =====
-- The invariant of the network tables: stored blocks are canonical, a subnet lies in a live VPC and
-- sibling subnets do not overlap. This module has the invariant and what each statement does to it.
use nephos.Base.{
  ◌≡◌, refl, sym, ◌∙◌, inl, inr, Bool, true, false, Option, none, some, List, [], Bool-cases,
  &&-split, keep, find_first, any, update_where, All, Str, str_eq, str_eq_sound, str_eq_iff, ok,
}
use mathlib.Core.Path.{subst}
use mathlib.Core.Option
use nephos.Netip.{Prefix}
use nephos.Netip.Text.{parse_prefix}
use nephos.Service.Validate.{validate_subnet_range, overlaps}
use nephos.Service.Validate.Ranges.{overlaps_comm}
use nephos.Service.Validate.Cidr.{IsCanonical}
use nephos.Store.Tables.{VpcRow, SubnetRow, insert_by}
use nephos.Store.Vpcs.{vpc_key}
use nephos.Store.Rows.{
  All-insert, All-keep, All-update, All-map, All-zip, Pairwise, Pairwise-insert, Pairwise-keep,
  Pairwise-update, find_first_sound, find_first-none, find_first-insert, find_first-update,
  find_first-keep, any-weaken, updated,
}

-- the text of a canonical block
abbrev pub IsBlock : Str → Type 0
IsBlock s = (p : Prefix) × (parse_prefix s ≡ some p) × IsCanonical p

-- the second block lies in the first
abbrev pub Inside : Str → Str → Type 0
Inside a b =
    (p q : Prefix)
    → parse_prefix a ≡ some p
    → parse_prefix b ≡ some q
    → validate_subnet_range p q ≡ ok tt

-- the block of a VPC that is not being deleted holds the subnet's
abbrev pub Hosted : Option VpcRow → Str → Type 0
Hosted none cidr = ⊥
Hosted (some v) cidr = (v.deletion_requested ≡ false) × Inside v.cidr_block cidr

abbrev pub Parent : List VpcRow → SubnetRow → Type 0
Parent vpcs s = Hosted (find_first (vpc_key s.vpc_id s.workspace_id) vpcs) s.cidr_block

-- siblings share no address
abbrev pub Apart : SubnetRow → SubnetRow → Type 0
Apart r s =
    r.vpc_id ≡ s.vpc_id
    → (p q : Prefix) → parse_prefix r.cidr_block ≡ some p
    → parse_prefix s.cidr_block ≡ some q
    → overlaps p q ≡ false

pub record IsTopology (vpcs : List VpcRow) (subnets : List SubnetRow) : Type 0 where
  pub vpc_blocks : All (λ v. IsBlock v.cidr_block) vpcs
  pub subnet_blocks : All (λ s. IsBlock s.cidr_block) subnets
  pub parents : All (Parent vpcs) subnets
  pub apart : Pairwise Apart subnets

pub IsTopology-nil : IsTopology [] []
IsTopology-nil = record { vpc_blocks = tt; subnet_blocks = tt; parents = tt; apart = tt }

key_id : (id w : Str) (v : VpcRow) → vpc_key id w v ≡ true → id ≡ v.id
key_id id w v h = str_eq_sound id v.id (&&-split _ _ h).0

-- A VPC with a new ID hosts none of the subnets that are there.
new_vpc_elsewhere :
    (row : VpcRow) (vpcs : List VpcRow) (s : SubnetRow)
    → any (λ r. str_eq r.id row.id) vpcs ≡ false
    → Parent vpcs s
    → Parent (insert_by (λ r. r.id) row vpcs) s
new_vpc_elsewhere row vpcs s fresh h = elim (Bool-cases (vpc_key s.vpc_id s.workspace_id row)) [
  | inl e ↦
      let gone = find_first-none (vpc_key s.vpc_id s.workspace_id) vpcs (
        any-weaken (vpc_key s.vpc_id s.workspace_id) (λ r. str_eq r.id row.id) vpcs
          (λ v k.
            (str_eq_iff v.id row.id).1
              (sym (key_id s.vpc_id s.workspace_id v k) ∙ key_id s.vpc_id s.workspace_id row e))
          fresh) in
      absurd (subst (λ o. Hosted o s.cidr_block) gone h)
  | inr e ↦
      subst (λ o. Hosted o s.cidr_block)
        (sym (find_first-insert (vpc_key s.vpc_id s.workspace_id) (λ r. r.id) row vpcs e)) h
]

pub insert_vpc-IsTopology :
    (row : VpcRow) {vpcs : List VpcRow} {subnets : List SubnetRow}
    → IsBlock row.cidr_block
    → any (λ r. str_eq r.id row.id) vpcs ≡ false
    → IsTopology vpcs subnets
    → IsTopology (insert_by (λ r. r.id) row vpcs) subnets
insert_vpc-IsTopology row {vpcs} {subnets} b fresh t = record {
  vpc_blocks = All-insert (λ v. IsBlock v.cidr_block) (λ r. r.id) row vpcs b t.vpc_blocks;
  subnet_blocks = t.subnet_blocks;
  parents =
      All-map (Parent vpcs) (Parent (insert_by (λ r. r.id) row vpcs)) subnets
        (λ s h. new_vpc_elsewhere row vpcs s fresh h) t.parents;
  apart = t.apart;
}

Apart-symm : (r s : SubnetRow) → Apart r s → Apart s r
Apart-symm r s h e p q i j = overlaps_comm p q ∙ h (sym e) q p j i

pub insert_subnet-IsTopology :
    (row : SubnetRow) {vpcs : List VpcRow} {subnets : List SubnetRow}
    → IsBlock row.cidr_block
    → Parent vpcs row
    → All (Apart row) subnets
    → IsTopology vpcs subnets
    → IsTopology vpcs (insert_by (λ r. r.id) row subnets)
insert_subnet-IsTopology row {vpcs} {subnets} b h a t = record {
  vpc_blocks = t.vpc_blocks;
  subnet_blocks = All-insert (λ s. IsBlock s.cidr_block) (λ r. r.id) row subnets b t.subnet_blocks;
  parents = All-insert (Parent vpcs) (λ r. r.id) row subnets h t.parents;
  apart = Pairwise-insert Apart (λ r. r.id) row subnets Apart-symm a t.apart;
}

-- Rows of subnets may be changed in what the invariant does not name.
pub update_subnets-IsTopology :
    (q : SubnetRow → Bool) (f : SubnetRow → SubnetRow) {vpcs : List VpcRow}
    {subnets : List SubnetRow}
    → ((s : SubnetRow) → (f s).vpc_id ≡ s.vpc_id)
    → ((s : SubnetRow) → (f s).workspace_id ≡ s.workspace_id)
    → ((s : SubnetRow) → (f s).cidr_block ≡ s.cidr_block)
    → IsTopology vpcs subnets
    → IsTopology vpcs (update_where q f subnets)
update_subnets-IsTopology q f {vpcs} {subnets} same_vpc same_workspace same_cidr t = record {
  vpc_blocks = t.vpc_blocks;
  subnet_blocks =
      All-update (λ s. IsBlock s.cidr_block) q f subnets (λ s b. rw same_cidr b) t.subnet_blocks;
  parents =
      All-update (Parent vpcs) q f subnets (λ s h. rw (same_vpc, same_workspace, same_cidr) h)
        t.parents;
  apart =
      Pairwise-update Apart q f subnets (λ r s h. rw (same_vpc, same_cidr) h)
        (λ r s h. rw (same_vpc, same_cidr) h) t.apart;
}

pub delete_subnets-IsTopology :
    (q : SubnetRow → Bool) {vpcs : List VpcRow} {subnets : List SubnetRow}
    → IsTopology vpcs subnets
    → IsTopology vpcs (keep q subnets)
delete_subnets-IsTopology q {vpcs} {subnets} t = record {
  vpc_blocks = t.vpc_blocks;
  subnet_blocks = All-keep (λ s. IsBlock s.cidr_block) q subnets t.subnet_blocks;
  parents = All-keep (Parent vpcs) q subnets t.parents;
  apart = Pairwise-keep Apart q subnets t.apart;
}

-- An UPDATE of VPCs that keeps what identifies them keeps their subnets hosted, if it changes the
-- deletion flag of no VPC that hosts one.
abbrev pub SameFlag : (VpcRow → Bool) → (VpcRow → VpcRow) → SubnetRow → Type 0
SameFlag q f s =
    (v : VpcRow)
    → vpc_key s.vpc_id s.workspace_id v ≡ true
    → (updated q f v).deletion_requested ≡ v.deletion_requested

Hosted-update :
    (q : VpcRow → Bool) (f : VpcRow → VpcRow) (o : Option VpcRow) (cidr : Str)
    → ((v : VpcRow) → (f v).cidr_block ≡ v.cidr_block)
    → ((v : VpcRow) → o ≡ some v → (updated q f v).deletion_requested ≡ v.deletion_requested)
    → Hosted o cidr
    → Hosted (Option.map (updated q f) o) cidr
Hosted-update q f none cidr same flag h = h
Hosted-update q f (some v) cidr same flag h = elim (Bool-cases (q v)) [
  | inl e ↦ (flag v refl ∙ h.0, rw e (subst (λ c. Inside c cidr) (sym (same v)) h.1))
  | inr e ↦ rw e h
]

pub update_vpcs-IsTopology :
    (q : VpcRow → Bool) (f : VpcRow → VpcRow) {vpcs : List VpcRow} {subnets : List SubnetRow}
    → ((v : VpcRow) → (f v).id ≡ v.id)
    → ((v : VpcRow) → (f v).workspace_id ≡ v.workspace_id)
    → ((v : VpcRow) → (f v).cidr_block ≡ v.cidr_block)
    → All (SameFlag q f) subnets
    → IsTopology vpcs subnets
    → IsTopology (update_where q f vpcs) subnets
update_vpcs-IsTopology q f {vpcs} {subnets} same_id same_workspace same_cidr flag t = record {
  vpc_blocks = All-update (λ v. IsBlock v.cidr_block) q f vpcs (λ v b. rw same_cidr b) t.vpc_blocks;
  subnet_blocks = t.subnet_blocks;
  parents =
      All-map (λ s. SameFlag q f s × Parent vpcs s) (Parent (update_where q f vpcs)) subnets
        (λ s (k, h). hosted s k h) (All-zip (SameFlag q f) (Parent vpcs) subnets flag t.parents);
  apart = t.apart;
}
  where
    hosted : (s : SubnetRow) → SameFlag q f s → Parent vpcs s → Parent (update_where q f vpcs) s
    hosted s k h =
        subst (λ o. Hosted o s.cidr_block)
          (sym (
            find_first-update (vpc_key s.vpc_id s.workspace_id) q f vpcs
              (λ v. rw (same_id, same_workspace))))
          (Hosted-update q f (find_first (vpc_key s.vpc_id s.workspace_id) vpcs) s.cidr_block
            same_cidr (λ v e. k v (find_first_sound (vpc_key s.vpc_id s.workspace_id) vpcs e)) h)

-- A DELETE of VPCs that host no subnet.
pub delete_vpcs-IsTopology :
    (q : VpcRow → Bool) {vpcs : List VpcRow} {subnets : List SubnetRow}
    → All (λ s. (v : VpcRow) → vpc_key s.vpc_id s.workspace_id v ≡ true → q v ≡ true) subnets
    → IsTopology vpcs subnets
    → IsTopology (keep q vpcs) subnets
delete_vpcs-IsTopology q {vpcs} {subnets} stays t = record {
  vpc_blocks = All-keep (λ v. IsBlock v.cidr_block) q vpcs t.vpc_blocks;
  subnet_blocks = t.subnet_blocks;
  parents =
      All-map
        (λ s.
          ((v : VpcRow) → vpc_key s.vpc_id s.workspace_id v ≡ true → q v ≡ true) × Parent vpcs s)
        (Parent (keep q vpcs)) subnets
        (λ s (k, h).
          subst (λ o. Hosted o s.cidr_block)
            (sym (find_first-keep (vpc_key s.vpc_id s.workspace_id) q vpcs k)) h)
        (All-zip (λ s. (v : VpcRow) → vpc_key s.vpc_id s.workspace_id v ≡ true → q v ≡ true)
          (Parent vpcs) subnets stays t.parents);
  apart = t.apart;
}
