-- ===== src/Controller/Vpcs/Quiet.antt =====
-- internal/reconcile/controller.go: rounds during which nothing else commits.
use nephos.Base.{
  ℕ, ◌≡◌, ◌≢◌, refl, sym, ap, ◌∙◌, Bool, true, false, ◌&&◌, Option, List, [], ◌∷◌, if◌then◌else◌,
  &&-split, find_first, arith, Str, str_eq_refl, bool_eq_refl, str_eq_sound, Result, ok, err,
}
use nephos.Netip.{Prefix}
use nephos.Netip.Text.{parse_prefix}
use nephos.Model.{State, Vpc, Subnet}
use nephos.Errors.{Error, stale_snapshot, failure}
use nephos.Store.Tables.{Db, VpcRow}
use nephos.Store.Tx.{Tx, pure, bind_result, found_or, missing_as, fail, ◌>>=◌, ◌>>◌}
use nephos.Store.Tx.Kept.{bind-ok, reading-ok, one_row-ok}
use nephos.Store.Vpcs.{vpc_key, get_vpc_row, update_vpc_status, delete_vpc_row}
use nephos.Store.Subnets.{update_subnet_status, delete_subnet_row}
use nephos.Store.Log.{Event, append_event}
use nephos.Store.Rows.{find_first_sound}
use nephos.Store.Resources.{get_vpc, list_subnets_by_vpc, vpc_from_row, vpc_of, block_of}
use nephos.Store.Reconcile.{
  same_desired_children, record_vpc_status, record_subnet_status, record_child, record_children,
  finish_vpc, record_topology_tx, same_desired_vpc, is_applied, observed_state, observed_reason,
}

-- the transaction does not end in ErrStaleSnapshot, whatever database it begins with
pub record NeverStale {A : Type 0} (m : Tx A) : Type 0 where
  pub fresh : (db : Db) → m db ≢ err stale_snapshot

module _ {A B : Type 0} {m : Tx A} {f : A → Tx B} where
  NeverStale-bind : NeverStale m → ((a : A) → NeverStale (f a)) → NeverStale (m >>= f)
  NeverStale-bind h k = record { fresh = λ db. go (m db) (h.fresh db) }
    where
      go :
          (r : Result Error (A × Db))
          → r ≢ err stale_snapshot
          → bind_result r f ≢ err stale_snapshot
      go (ok (a, db')) n = (k a).fresh db'
      go (err e) n = λ p. n (ground arith)

module _ {A : Type 0} {m n : Tx A} where
  NeverStale-if : (b : Bool) → NeverStale m → NeverStale n → NeverStale (if b then m else n)
  NeverStale-if true h k = h
  NeverStale-if false h k = k

append_event-NeverStale : (e : Event) → NeverStale (append_event e)
unfolding append_event
append_event-NeverStale e = record { fresh = λ db p. ground arith }

pure-NeverStale : NeverStale (pure (tt {0}))
pure-NeverStale = record { fresh = λ db p. ground arith }

delete_vpc_row-NeverStale : (id w : Str) → NeverStale (delete_vpc_row id w)
unfolding delete_vpc_row
delete_vpc_row-NeverStale id w = record { fresh = λ db p. ground arith }

delete_subnet_row-NeverStale : (id w : Str) → NeverStale (delete_subnet_row id w)
unfolding delete_subnet_row
delete_subnet_row-NeverStale id w = record { fresh = λ db p. ground arith }

module _ (state : State) (reason : Str) where
  update_vpc_status-NeverStale :
      (observed now : ℕ) (id w : Str)
      → NeverStale (update_vpc_status state reason observed now id w)
  unfolding update_vpc_status
  update_vpc_status-NeverStale observed now id w = record { fresh = λ db p. ground arith }

  update_subnet_status-NeverStale :
      (observed now : ℕ) (id w : Str)
      → NeverStale (update_subnet_status state reason observed now id w)
  unfolding update_subnet_status
  update_subnet_status-NeverStale observed now id w = record { fresh = λ db p. ground arith }

  record_vpc_status-NeverStale :
      (v : Vpc) (observed : Bool) (now : ℕ)
      → NeverStale (record_vpc_status v state reason observed now)
  unfolding record_vpc_status
  record_vpc_status-NeverStale v observed now = NeverStale-if _ pure-NeverStale (
      NeverStale-bind (update_vpc_status-NeverStale _ now v.id v.workspace_id)
        (λ _. append_event-NeverStale _))

  record_child-NeverStale :
      (applied : Bool) (now : ℕ) (s : Subnet) → NeverStale (record_child state reason applied now s)
  unfolding record_child record_subnet_status
  record_child-NeverStale applied now s =
      NeverStale-if _
        (NeverStale-bind (delete_subnet_row-NeverStale s.id s.workspace_id)
          (λ _. append_event-NeverStale _))
        (NeverStale-if _ pure-NeverStale (
          NeverStale-bind (update_subnet_status-NeverStale _ now s.id s.workspace_id)
            (λ _. append_event-NeverStale _)))

  record_children-NeverStale :
      (applied : Bool) (now : ℕ) (children : List Subnet)
      → NeverStale (record_children state reason applied now children)
  unfolding record_children
  record_children-NeverStale applied now [] = pure-NeverStale
  record_children-NeverStale applied now (c ∷ children) =
      NeverStale-bind (record_child-NeverStale applied now c)
        (λ _. record_children-NeverStale applied now children)

refused-NeverStale : NeverStale (fail {A = Unit {0}} failure)
refused-NeverStale = record { fresh = λ db p. ground arith }

finish_vpc-NeverStale :
    (v : Vpc) (children : List Subnet) (now : ℕ) → NeverStale (finish_vpc v children now)
unfolding finish_vpc
finish_vpc-NeverStale v children now = NeverStale-if _ refused-NeverStale (
    NeverStale-bind (delete_vpc_row-NeverStale v.id v.workspace_id)
      (λ _. append_event-NeverStale _))

module _ {A B : Type 0} where
  pub bind_at :
      (m : Tx A) (f : A → Tx B) (db : Db) {a : A} {db' : Db}
      → m db ≡ ok (a, db')
      → (m >>= f) db ≡ f a db'
  bind_at m f db e = ap (λ r. bind_result r f) e

same_desired_children_refl : (subnets : List Subnet) → same_desired_children subnets subnets ≡ true
unfolding same_desired_children
same_desired_children_refl [] = refl
same_desired_children_refl (s ∷ subnets) =
    ground (
      arith,
      str_eq_refl s.id,
      same_desired_children_refl subnets,
      bool_eq_refl s.deletion_requested,
    )

same_desired_vpc_refl : (v : Vpc) → same_desired_vpc v v ≡ true
same_desired_vpc_refl v = ground (arith, bool_eq_refl v.deletion_requested)

vpc_of-keys :
    (row : VpcRow) (r : Result Error Prefix) {v : Vpc}
    → vpc_of row r ≡ ok v
    → (v.id ≡ row.id) × (v.workspace_id ≡ row.workspace_id)
vpc_of-keys row (ok p) h = (ground arith, ground arith)
vpc_of-keys row (err e) h = absurd (ground arith)

-- GetVPC returns the VPC that it was asked for.
pub get_vpc-keys :
    (w id : Str) (db : Db) {v : Vpc} {db' : Db}
    → get_vpc w id db ≡ ok (v, db')
    → (v.id ≡ id) × (v.workspace_id ≡ w) × (db' ≡ db)
unfolding get_vpc get_vpc_row vpc_from_row
get_vpc-keys w id db {v} {db'} h =
    let (row, db1, e1, r1) = bind-ok (get_vpc_row id w) _ db h in
    let (found, same1) = one_row-ok (find_first (vpc_key id w) db.vpcs) db e1 in
    let (read, same2) = reading-ok (vpc_from_row row) db1 r1 in
    let keys = vpc_of-keys row (block_of (parse_prefix row.cidr_block)) read in
    let k = &&-split _ _ (find_first_sound (vpc_key id w) db.vpcs found) in
    (
      keys.0 ∙ sym (str_eq_sound id row.id k.0),
      keys.1 ∙ sym (str_eq_sound w row.workspace_id k.1),
      same2 ∙ same1,
    )

module _ (v : Vpc) (subnets : List Subnet) (effect : Option Str) (now : ℕ) where
  -- the outcome is written to the VPC and its subnets
  abbrev pub record_outcome : Tx (Unit {0})
  record_outcome =
      record_vpc_status v (observed_state effect) (observed_reason effect) (is_applied effect) now
      >> record_children (observed_state effect) (observed_reason effect) (is_applied effect) now
          subnets

  -- what RecordTopology does once it has found its snapshot to be current
  abbrev pub record_current : Tx (Unit {0})
  record_current =
      if v.deletion_requested && is_applied effect then finish_vpc v subnets now else record_outcome

  pub record_current-NeverStale : NeverStale record_current
  record_current-NeverStale = NeverStale-if _ (finish_vpc-NeverStale v subnets now) (
      NeverStale-bind (record_vpc_status-NeverStale _ _ v _ now)
        (λ _. record_children-NeverStale _ _ _ now subnets))

  -- RecordTopology on the database that its snapshot was read from.
  pub record_topology_tx-current :
      (db : Db)
      → get_vpc v.workspace_id v.id db ≡ ok (v, db)
      → list_subnets_by_vpc v.id db ≡ ok (subnets, db)
      → record_topology_tx v subnets effect now db ≡ record_current db
  unfolding record_topology_tx
  record_topology_tx-current db found listed =
      bind_at (found_or (get_vpc v.workspace_id v.id) stale_snapshot) _ db (
        ap
          (λ r. elim r as (λ _. Result Error (Vpc × Db)) [
            | ok s ↦ ok s
            | err e ↦ err (missing_as stale_snapshot e)
          ])
          found)
      ∙ rw (same_desired_vpc_refl v) (
          bind_at (list_subnets_by_vpc v.id) _ db listed
          ∙ rw (same_desired_children_refl subnets) refl)
