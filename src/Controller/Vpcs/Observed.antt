-- ===== src/Controller/Vpcs/Observed.antt =====
-- internal/reconcile/controller.go: what a round records of a VPC that is not being deleted.
use nephos.Base.{
  ℕ, ◌≡◌, ◌≢◌, refl, sym, ap, ◌∙◌, Bool, false, Option, List, if◌then◌else◌, arith, find_first, Str,
  none, some, [], ◌∷◌, codes, Result, ok, err,
}
use mathlib.Core.Path.{subst}
use nephos.Model.{State, Vpc, Subnet}
use nephos.Errors.{Error, stale_snapshot}
use nephos.Store.Tables.{Db, VpcRow}
use nephos.Store.Tx.{settle}
use nephos.Store.Vpcs.{vpc_key}
use nephos.Store.Resources.{get_vpc, list_subnets_by_vpc}
use nephos.Controller.Queue.{Controller}
use nephos.Controller.Vpcs.{
  active, NetworkEngine, World, Round, apply_desired, recorded, reconcile_locked,
}
use nephos.Controller.Vpcs.Quiet.{get_vpc-keys, record_current, record_current-NeverStale}
use nephos.Controller.Vpcs.Drained.{IsQuiet}
use nephos.Controller.Vpcs.Progress.{reconcile_locked-quiet}
use nephos.Controller.Vpcs.Rescheduled.{Rescheduled, after_effect-Rescheduled}
use nephos.Controller.Vpcs.Told.{Told, record_current-Told}

-- what the row of a VPC says after the engine's work on it
abbrev pub Reported : Option Str → Vpc → Option VpcRow → Type 0
Reported effect v none = ⊥
Reported none v (some row) =
    (row.state ≡ State.available)
    × (row.state_reason ≡ [])
    × (row.observed_generation ≡ v.generation)
Reported (some reason) v (some row) =
    (row.state ≡ State.failed)
    × (row.state_reason ≡ reason)
    × (row.observed_generation ≡ v.observed_generation)

Told-Reported :
    (effect : Option Str) (v : Vpc) (o : Option VpcRow) → Told effect v o → Reported effect v o
Told-Reported none v none t = t
Told-Reported (some reason) v none t = t
Told-Reported none v (some row) t = (t.state_told, t.reason_told, t.generation_told)
Told-Reported (some reason) v (some row) t = (t.state_told, t.reason_told, t.generation_told)

-- the subnets that are not marked for deletion, in their order
abbrev pub staying : List Subnet → List Subnet
staying [] = []
staying (s ∷ subnets) =
    let rest = staying subnets in if s.deletion_requested then rest else s ∷ rest

active_lem : (subnets : List Subnet) → active subnets ≡ staying subnets
active_lem [] = refl
active_lem (s ∷ subnets) = let rest = active_lem subnets in ground arith

module _ {K : Type 0} (id : Str) (now : ℕ) (effect : Option Str) (v : Vpc) (before : Db)
    (c : Controller) where
  -- a round that ends well has reported the engine's outcome and dropped or scheduled the retry; one
  -- that does not has written nothing
  abbrev pub Outcome : Result Error (Unit {0}) × World K → Type 0
  Outcome (ok u, w) =
      Reported effect v (find_first (vpc_key v.id v.workspace_id) w.db.vpcs)
      × Rescheduled id now effect c w.controller
  Outcome (err e, w) = (w.db ≡ before) × (w.controller ≡ c)

  recorded-Outcome :
      (k : K) (r : Result Error (Unit {0} × Db))
      → r ≢ err stale_snapshot
      → ((u : Unit {0}) (db' : Db)
          → r ≡ ok (u, db')
          → Told effect v (find_first (vpc_key v.id v.workspace_id) db'.vpcs))
      → Outcome (recorded id now effect c k (settle before r))
  recorded-Outcome k (ok (u, db')) fresh told =
      (Told-Reported effect v _ (told u db' refl), after_effect-Rescheduled id now effect c)
  recorded-Outcome k (err stale_snapshot) fresh told = absurd (fresh refl)
  recorded-Outcome k (err _) fresh told = (refl, refl)

module _ {K : Type 0} (engine : NetworkEngine K) (round : Round) (quiet : IsQuiet round) where
  -- For a VPC of the default workspace that is not marked for deletion, when nothing else
  -- commits in the course of the round, and by the result of the engine on the subnets that are
  -- not marked for deletion: a round that succeeds leaves in the VPC's row, after a success, the
  -- state available, no reason and the VPC's generation as observed, and keeps no retry; after a
  -- failure the state failed, the engine's reason and the generation observed before, and a
  -- retry with one more attempt, due 100 ms times 2 ^ n after now for n failures before but at
  -- most 30 s after it, unless n is 0 and 1024 retries are kept, when the queue stays as it was.
  -- Either way the pending hints stay. A round that fails leaves database and queue as they
  -- were.
  pub reconcile_locked-Outcome :
      (id : Str) (v : Vpc) (subnets : List Subnet) (w : World K) {db1 db2 : Db}
      → get_vpc (codes "default") id w.db ≡ ok (v, db1)
      → list_subnets_by_vpc id w.db ≡ ok (subnets, db2)
      → v.deletion_requested ≡ false
      → Outcome id round.retried_at
          (engine.ensure_vpc v (staying subnets) w.kernel).0
          v
          w.db
          w.controller
          (reconcile_locked engine round id w)
  unfolding apply_desired
  reconcile_locked-Outcome id v subnets w {db1} {db2} found listed live =
      let (same_id, same_w, same) = get_vpc-keys (codes "default") id w.db found in
      let p = apply_desired engine v subnets w.kernel in
      let own : get_vpc v.workspace_id v.id w.db ≡ ok (v, db1) =
        ap (λ x. get_vpc x v.id w.db) same_w
        ∙ ap (λ x. get_vpc (codes "default") x w.db) same_id
        ∙ found in
      let ensured : p.0 ≡ (engine.ensure_vpc v (staying subnets) w.kernel).0 =
        ap
          (λ (b : Bool).
            (if b
              then engine.delete_vpc v w.kernel
              else engine.ensure_vpc v (active subnets) w.kernel).0)
          live
        ∙ ap (λ s. (engine.ensure_vpc v s w.kernel).0) (active_lem subnets) in
      subst
        (λ o.
          Outcome id round.retried_at o v w.db w.controller (reconcile_locked engine round id w))
        ensured
        (subst (Outcome id round.retried_at p.0 v w.db w.controller)
          (sym
            (reconcile_locked-quiet engine round quiet id v subnets w found listed (ground arith)))
          (recorded-Outcome id round.retried_at p.0 v w.db w.controller p.1
            (record_current v subnets p.0 round.recorded_at w.db)
            ((record_current-NeverStale v subnets p.0 round.recorded_at).fresh w.db)
            (λ u db' e.
              record_current-Told p.0 v round.recorded_at subnets w.db own (ground arith) e)))
