-- ===== src/Store/Reconcile/Fresh.antt =====
-- internal/store/reconcile.go: the results of RecordTopology and the snapshot that it was given.
use nephos.Base.{
  ℕ, ◌≡◌, refl, Bool, true, false, not, ◌==◌, Option, List, [], ◌∷◌, arith, &&-split, ==_iff,
  bool_eq_sound, if◌then◌else◌, Str, str_eq_sound, Result, ok, err,
}
use nephos.Model.{Vpc, Subnet}
use nephos.Errors.{Error, stale_snapshot}
use nephos.Store.Tables.{Db}
use nephos.Store.Tx.{Tx, fail, with_tx, settle, found_or}
use nephos.Store.Tx.Kept.{bind-ok, on_error-ok}
use nephos.Store.Resources.{get_vpc, list_subnets_by_vpc}
use nephos.Store.Reconcile.{
  same_desired_children, same_desired_vpc, record_topology_tx, record_topology,
}

not-false : (b : Bool) → not b ≡ false → b ≡ true
not-false b h = ground arith

module _ {A : Type 0} where
  pub with_tx-ok :
      (m : Tx A) (db : Db) {a : A} → (with_tx m db).0 ≡ ok a → m db ≡ ok (a, (with_tx m db).1)
  unfolding with_tx
  with_tx-ok m db h = go (m db) h
    where
      go :
          (r : Result Error (A × Db)) {a : A} → (settle db r).0 ≡ ok a → r ≡ ok (a, (settle db r).1)
      go (ok (a, d)) h = ground arith
      go (err e) h = absurd (ground arith)

  pub if_fail :
      (b : Bool) (e : Error) (m : Tx A) (db : Db) {r : A × Db}
      → (if b then fail e else m) db ≡ ok r
      → (b ≡ false) × (m db ≡ ok r)
  if_fail true e m db h = absurd (ground arith)
  if_fail false e m db h = (refl, h)

-- the children of the database are, one by one, those that the engine was given
abbrev pub SameChildren : List Subnet → List Subnet → Type 0
SameChildren [] [] = Unit
SameChildren [] (a ∷ applied) = ⊥
SameChildren (c ∷ current) [] = ⊥
SameChildren (c ∷ current) (a ∷ applied) =
    (c.id ≡ a.id)
    × (c.generation ≡ a.generation)
    × (c.deletion_requested ≡ a.deletion_requested)
    × (c.short_index ≡ a.short_index)
    × SameChildren current applied

same_desired_children_sound :
    (current applied : List Subnet)
    → same_desired_children current applied ≡ true
    → SameChildren current applied
unfolding same_desired_children
same_desired_children_sound [] [] h = tt
same_desired_children_sound [] (a ∷ applied) h = absurd (ground arith)
same_desired_children_sound (c ∷ current) [] h = absurd (ground arith)
same_desired_children_sound (c ∷ current) (a ∷ applied) h =
    let (id, h1) = &&-split _ _ h in
    let (generation, h2) = &&-split _ _ h1 in
    let (deletion, h3) = &&-split _ _ h2 in
    let (index, rest) = &&-split _ _ h3 in
    (
      str_eq_sound c.id a.id id,
      ((==_iff c.generation a.generation).0 generation),
      bool_eq_sound c.deletion_requested a.deletion_requested deletion,
      ((==_iff c.short_index a.short_index).0 index),
      same_desired_children_sound current applied rest,
    )

-- the snapshot of the engine is that of the database
pub record IsCurrent (v : Vpc) (subnets : List Subnet) (db : Db) : Type 0 where
  pub current : Vpc
  pub children : List Subnet
  pub between : Db
  pub after : Db
  pub found : get_vpc v.workspace_id v.id db ≡ ok (current, between)
  pub listed : list_subnets_by_vpc v.id between ≡ ok (children, after)
  pub same_generation : current.generation ≡ v.generation
  pub same_deletion : current.deletion_requested ≡ v.deletion_requested
  pub same_index : current.short_index ≡ v.short_index
  pub same_children : SameChildren children subnets

pub record_topology_tx-IsCurrent :
    (v : Vpc) (subnets : List Subnet) (effect : Option Str) (now : ℕ) (db : Db) {u : Unit {0}}
    {db' : Db}
    → record_topology_tx v subnets effect now db ≡ ok (u, db')
    → IsCurrent v subnets db
unfolding record_topology_tx
record_topology_tx-IsCurrent v subnets effect now db h =
    let (current, db1, e1, r1) =
      bind-ok (found_or (get_vpc v.workspace_id v.id) stale_snapshot) _ db h in
    let (same, r2) = if_fail (not (same_desired_vpc current v)) stale_snapshot _ db1 r1 in
    let (children, db2, e2, r3) = bind-ok (list_subnets_by_vpc v.id) _ db1 r2 in
    let (same', r4) =
      if_fail (not (same_desired_children children subnets)) stale_snapshot _ db2 r3 in
    let (generation, same1) =
      &&-split (current.generation == v.generation) _
        (not-false (same_desired_vpc current v) same) in
    let (deletion, index) = &&-split _ _ same1 in
    record {
      current = current;
      children = children;
      between = db1;
      after = db2;
      found = on_error-ok (get_vpc v.workspace_id v.id) _ db e1;
      listed = e2;
      same_generation = (==_iff current.generation v.generation).0 generation;
      same_deletion = bool_eq_sound current.deletion_requested v.deletion_requested deletion;
      same_index = (==_iff current.short_index v.short_index).0 index;
      same_children =
          same_desired_children_sound children subnets
            (not-false (same_desired_children children subnets) same');
    }

-- A RecordTopology that succeeds was given the VPC that the database holds under its ID, with
-- the same generation, deletion flag and index, and the subnets that the database holds for it,
-- one by one with the same ID, generation, deletion flag and index.
pub record_topology-IsCurrent :
    (v : Vpc) (subnets : List Subnet) (effect : Option Str) (now : ℕ) (db : Db)
    → (record_topology v subnets effect now db).0 ≡ ok tt
    → IsCurrent v subnets db
unfolding record_topology
record_topology-IsCurrent v subnets effect now db h =
    record_topology_tx-IsCurrent v subnets effect now db
      (with_tx-ok (record_topology_tx v subnets effect now) db h)
