-- ===== src/Controller/Vpcs/Progress.antt =====
-- internal/reconcile/controller.go: what a round achieves when the engine succeeds and nothing else
-- commits in its course.
use nephos.Base.{
  ℕ, ◌≡◌, refl, sym, ap, ◌∙◌, inl, inr, Bool, true, false, not, ◌&&◌, none, List, [], ◌∷◌,
  if◌then◌else◌, Bool-cases, arith, keep, any, find_first, All, Str, codes, lookup, lookup-remove,
  str_eq, str_eq_refl, Result, ok, err,
}
use mathlib.Core.Path.{subst}
use nephos.Model.{Vpc, Subnet}
use nephos.Errors.{Error}
use nephos.Store.Tables.{Db, VpcRow, SubnetRow, same_key}
use nephos.Store.Tx.{settle}
use nephos.Store.Vpcs.{vpc_key, delete_vpc_row, workspace_exists}
use nephos.Store.Log.{append_event}
use nephos.Store.Resources.{get_vpc, list_subnets_by_vpc}
use nephos.Store.Reconcile.{finish_vpc, is_nil, record_topology}
use nephos.Service.Network.Effects.{list_subnets_by_vpc-ok, no_children}
use nephos.Controller.Queue.{Controller, clear_retry}
use nephos.Controller.Vpcs.{
  NetworkEngine, World, Round, apply_desired, recorded, converge, subnets_read, vpc_read,
  reconcile_locked,
}
use nephos.Controller.Vpcs.Quiet.{get_vpc-keys, record_outcome, record_current}
use nephos.Controller.Vpcs.Drained.{IsQuiet, record_topology-quiet}

childless_any :
    (id w : Str) (subnets : List SubnetRow)
    → All (λ s. str_eq id s.vpc_id ≡ false) subnets
    → any (λ s. same_key id w s.vpc_id s.workspace_id) subnets ≡ false
childless_any id w [] h = refl
childless_any id w (s ∷ subnets) h =
    let none_here = h.0 in ground (arith, childless_any id w subnets h.1)

removed_vpc :
    (id w : Str) (rows : List VpcRow)
    → find_first (vpc_key id w) (keep (λ r. not (vpc_key id w r)) rows) ≡ none
removed_vpc id w [] = refl
removed_vpc id w (r ∷ rows) = elim (Bool-cases (vpc_key id w r)) [
  | inl e ↦ rw e (removed_vpc id w rows)
  | inr e ↦ rw e (rw e (removed_vpc id w rows))
]

-- the end of a VPC: its row is gone
abbrev IsGone : Str → Str → Result Error (Unit {0} × Db) → Type 0
IsGone id w (ok (u, db)) = find_first (vpc_key id w) db.vpcs ≡ none
IsGone id w (err e) = ⊥

finish_vpc-IsGone :
    (v : Vpc) (now : ℕ) (db : Db)
    → workspace_exists v.workspace_id db ≡ true
    → All (λ s. str_eq v.id s.vpc_id ≡ false) db.subnets
    → IsGone v.id v.workspace_id (finish_vpc v [] now db)
unfolding finish_vpc delete_vpc_row append_event
finish_vpc-IsGone v now db known childless =
    let guard = any (vpc_key v.id v.workspace_id) db.vpcs in
    let free = childless_any v.id v.workspace_id db.subnets childless in
    let unblocked : (guard
          && any (λ s. same_key v.id v.workspace_id s.vpc_id s.workspace_id) db.subnets)
        ≡ false =
      ground arith in
    rw (unblocked, known) (removed_vpc v.id v.workspace_id db.vpcs)

record_current-IsGone :
    (v : Vpc) (now : ℕ) (db : Db)
    → v.deletion_requested ≡ true
    → workspace_exists v.workspace_id db ≡ true
    → All (λ s. str_eq v.id s.vpc_id ≡ false) db.subnets
    → IsGone v.id v.workspace_id (record_current v [] none now db)
record_current-IsGone v now db asked known childless =
    subst
      (λ (b : Bool).
        IsGone v.id v.workspace_id
          ((if b && true then finish_vpc v [] now else record_outcome v [] none now) db))
      (sym asked) (finish_vpc-IsGone v now db known childless)

module _ {K : Type 0} (engine : NetworkEngine K) (round : Round) (quiet : IsQuiet round) where
  -- A quiet round hands the snapshot to the engine and records the outcome.
  pub reconcile_locked-quiet :
      (id : Str) (v : Vpc) (subnets : List Subnet) (w : World K) {db1 db2 : Db}
      → get_vpc (codes "default") id w.db ≡ ok (v, db1)
      → list_subnets_by_vpc id w.db ≡ ok (subnets, db2)
      → (v.deletion_requested && not (is_nil subnets)) ≡ false
      → reconcile_locked engine round id w
        ≡ recorded id round.retried_at
            (apply_desired engine v subnets w.kernel).0
            w.controller
            (apply_desired engine v subnets w.kernel).1
            (settle w.db (
              record_current v subnets
                (apply_desired engine v subnets w.kernel).0
                round.recorded_at
                w.db))
  unfolding reconcile_locked converge
  reconcile_locked-quiet id v subnets w found listed proceed =
      let p = apply_desired engine v subnets w.kernel in
      ap (vpc_read engine round id w) found
      ∙ ap (λ d. subnets_read engine round id v (record w { db = d }) (list_subnets_by_vpc id d))
          (quiet.reads_quiet w.db)
      ∙ ap (subnets_read engine round id v w) listed
      ∙ rw proceed (
          ap (recorded id round.retried_at p.0 w.controller p.1) (
            ap (record_topology v subnets p.0 round.recorded_at) (quiet.effect_quiet w.db)
            ∙ record_topology-quiet v subnets p.0 round.recorded_at (codes "default") id w.db found
                listed))

-- the round has succeeded, the VPC is gone and so is its retry
pub record IsRemoved {K : Type 0} (id : Str) (r : Result Error (Unit {0}) × World K) : Type 0 where
  pub succeeded : r.0 ≡ ok tt
  pub gone : find_first (vpc_key id (codes "default")) r.1.db.vpcs ≡ none
  pub forgotten : lookup id r.1.controller.retries ≡ none

forgotten_retry : (id : Str) (c : Controller) → lookup id (clear_retry id c).retries ≡ none
unfolding clear_retry
forgotten_retry id c = ground (arith, lookup-remove id id c.retries, str_eq_refl id)

gone-IsRemoved :
    {K : Type 0} (id : Str) (now : ℕ) (c : Controller) (k : K) (db : Db)
    (r : Result Error (Unit {0} × Db))
    → IsGone id (codes "default") r
    → IsRemoved id (recorded id now none c k (settle db r))
gone-IsRemoved id now c k db (ok (u, d)) h = record {
  succeeded = refl;
  gone = h;
  forgotten = forgotten_retry id c;
}
gone-IsRemoved id now c k db (err e) h = absurd h

-- When a VPC of the default workspace, which exists, is marked for deletion and has no subnets,
-- the engine succeeds in tearing it down and nothing else commits in the course of the round,
-- the round succeeds, the VPC's row is gone and no retry of it is kept.
pub reconcile_locked-IsRemoved :
    {K : Type 0} (engine : NetworkEngine K) (round : Round) (id : Str) (v : Vpc) (w : World K)
    {db1 db2 : Db}
    → IsQuiet round
    → get_vpc (codes "default") id w.db ≡ ok (v, db1)
    → list_subnets_by_vpc id w.db ≡ ok ([], db2)
    → v.deletion_requested ≡ true
    → workspace_exists (codes "default") w.db ≡ true
    → (engine.delete_vpc v w.kernel).0 ≡ none
    → IsRemoved id (reconcile_locked engine round id w)
unfolding apply_desired
reconcile_locked-IsRemoved engine round id v w quiet found listed asked known torn_down =
    let (same_id, same_w, same) = get_vpc-keys (codes "default") id w.db found in
    let childless = no_children id w.db.subnets (list_subnets_by_vpc-ok id w.db listed).0 in
    let step = reconcile_locked-quiet engine round quiet id v [] w found listed (ground arith) in
    let torn : (apply_desired engine v [] w.kernel).0 ≡ none =
      ap
        (λ (b : Bool).
          (if b then engine.delete_vpc v w.kernel else engine.ensure_vpc v [] w.kernel).0)
        asked
      ∙ torn_down in
    let gone =
      record_current-IsGone v round.recorded_at w.db asked
        (ap (λ x. workspace_exists x w.db) same_w ∙ known)
        (subst (λ x. All (λ s. str_eq x s.vpc_id ≡ false) w.db.subnets) (sym same_id) childless) in
    subst (IsRemoved id)
      (sym (
        step
        ∙ ap
            (λ o.
              recorded id round.retried_at o w.controller (apply_desired engine v [] w.kernel).1
                (settle w.db (record_current v [] o round.recorded_at w.db)))
            torn))
      (gone-IsRemoved id round.retried_at w.controller (apply_desired engine v [] w.kernel).1 w.db _
        (subst (λ x. IsGone x (codes "default") (record_current v [] none round.recorded_at w.db))
          same_id
          (subst (λ x. IsGone v.id x (record_current v [] none round.recorded_at w.db)) same_w
            gone)))
