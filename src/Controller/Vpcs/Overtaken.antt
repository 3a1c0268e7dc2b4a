-- ===== src/Controller/Vpcs/Overtaken.antt =====
-- internal/reconcile/controller.go: a round in whose course the VPC was changed.
use nephos.Base.{
  ℕ, ◌<◌, ◌≡◌, ◌≢◌, ◌⊎◌, inl, inr, refl, sym, ap, ◌∙◌, true, false, not, ◌&&◌, Option, List, [],
  ◌∷◌, arith, has, has-put, length, Str, codes, str_eq_refl, Result, ok, err,
}
use mathlib.Core.Path.{subst}
use nephos.Model.{Vpc, Subnet}
use nephos.Errors.{Error, stale_snapshot}
use nephos.Store.Tables.{Db}
use nephos.Store.Tx.{found_or, missing_as, with_tx, settle}
use nephos.Store.Resources.{get_vpc, list_subnets_by_vpc}
use nephos.Store.Reconcile.{is_nil, same_desired_vpc, record_topology, record_topology_tx}
use nephos.Controller.Queue.{Controller, enqueue}
use nephos.Controller.Vpcs.{
  NetworkEngine, World, Round, apply_desired, recorded, converge, vpc_read, subnets_read,
  reconcile_locked,
}
use nephos.Controller.Vpcs.Quiet.{get_vpc-keys, bind_at}

-- A snapshot of another generation is refused as stale.
record_topology-stale :
    (v current : Vpc) (subnets : List Subnet) (effect : Option Str) (now : ℕ) (db : Db) {db' : Db}
    → get_vpc v.workspace_id v.id db ≡ ok (current, db')
    → current.generation ≢ v.generation
    → record_topology v subnets effect now db ≡ (err stale_snapshot, db)
unfolding record_topology with_tx record_topology_tx
record_topology-stale v current subnets effect now db {db'} found changed =
    let differs : same_desired_vpc current v ≡ false = ground arith in
    let refused : record_topology_tx v subnets effect now db ≡ err stale_snapshot =
      bind_at (found_or (get_vpc v.workspace_id v.id) stale_snapshot) _ db (
        ap
          (λ r. elim r as (λ _. Result Error (Vpc × Db)) [
            | ok s ↦ ok s
            | err e ↦ err (missing_as stale_snapshot e)
          ])
          found)
      ∙ rw differs refl in
    ap (settle db) refused

may_proceed :
    (v : Vpc) (subnets : List Subnet)
    → (v.deletion_requested ≡ false) ⊎ (subnets ≡ [])
    → (v.deletion_requested && not (is_nil subnets)) ≡ false
may_proceed v [] h = ground arith
may_proceed v (s ∷ subnets) (inl e) = ground arith
may_proceed v (s ∷ subnets) (inr e) = absurd (ground arith)

-- the VPC is hinted again, and nothing is recorded of it
pub record IsRequeued {K : Type 0} (id : Str) (c : Controller) (db : Db)
    (r : Result Error (Unit {0}) × World K) : Type 0 where
  pub succeeded : r.0 ≡ ok tt
  pub unrecorded : r.1.db ≡ db
  pub hinted : has id r.1.controller.pending ≡ true
  pub woken : r.1.controller.wake ≡ true
  pub retries_kept : r.1.controller.retries ≡ c.retries

enqueued-IsRequeued :
    {K : Type 0} (x : ℕ) (id : Str) (w : World K)
    → length w.controller.pending < 1024
    → IsRequeued
        (x ∷ id)
        w.controller
        w.db
        (ok tt, record w { controller = enqueue (x ∷ id) w.controller })
unfolding enqueue
enqueued-IsRequeued x id w room = record {
  succeeded = refl;
  unrecorded = refl;
  hinted = ground (arith, has-put (x ∷ id) (x ∷ id) tt w.controller.pending, str_eq_refl (x ∷ id));
  woken = refl;
  retries_kept = refl;
}

module _ {K : Type 0} (engine : NetworkEngine K) (round : Round) where
  -- the database after what others commit in a round
  abbrev committed : Db → Db
  committed db = round.during_effect (round.between_reads db)

  -- For a VPC of the default workspace that is not marked for deletion or has no subnets: when
  -- what others commit in the course of a round has changed the VPC's generation, and there is
  -- room for a hint, the round succeeds, records nothing of what the engine did for the old
  -- snapshot, whatever its result, leaves the retries as they were, and hints the VPC again.
  pub reconcile_locked-IsRequeued :
      (x : ℕ) (id : Str) (v current : Vpc) (subnets : List Subnet) (w : World K) {db1 db2 db3 : Db}
      → get_vpc (codes "default") (x ∷ id) w.db ≡ ok (v, db1)
      → list_subnets_by_vpc (x ∷ id) (round.between_reads w.db) ≡ ok (subnets, db2)
      → (v.deletion_requested ≡ false) ⊎ (subnets ≡ [])
      → get_vpc (codes "default") (x ∷ id) (committed w.db) ≡ ok (current, db3)
      → current.generation ≢ v.generation
      → length w.controller.pending < 1024
      → IsRequeued (x ∷ id) w.controller (committed w.db) (reconcile_locked engine round (x ∷ id) w)
  unfolding reconcile_locked converge
  reconcile_locked-IsRequeued x id v current subnets w {db3 = db3} found listed live seen changed
        room =
      let (same_id, same_w, same) = get_vpc-keys (codes "default") (x ∷ id) w.db found in
      let p = apply_desired engine v subnets w.kernel in
      let w' = record w { db = round.between_reads w.db } in
      let own : get_vpc v.workspace_id v.id (committed w.db) ≡ ok (current, db3) =
        ap (λ y. get_vpc y v.id (committed w.db)) same_w
        ∙ ap (λ y. get_vpc (codes "default") y (committed w.db)) same_id
        ∙ seen in
      subst (IsRequeued (x ∷ id) w.controller (committed w.db))
        (sym (
          ap (vpc_read engine round (x ∷ id) w) found
          ∙ ap (subnets_read engine round (x ∷ id) v w') listed
          ∙ rw (may_proceed v subnets live) (
              ap (recorded (x ∷ id) round.retried_at p.0 w.controller p.1) (
                record_topology-stale v current subnets p.0 round.recorded_at (committed w.db) own
                  changed))))
        (enqueued-IsRequeued x id
          (record { controller = w.controller; db = committed w.db; kernel = p.1 }) room)
