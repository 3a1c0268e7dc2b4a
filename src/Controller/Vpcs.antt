-- ===== src/Controller/Vpcs.antt =====
-- internal/reconcile/controller.go: one VPC is converged, and the loop of Run that empties the
-- queue. The engine is what implements NetworkEngine; `K` is the state of the kernel that it works
-- on. Cancelled contexts are not modelled.
pub mod Quiet
pub mod Drained
pub mod Progress
pub mod Children
pub mod Told
pub mod Rescheduled
pub mod Observed
pub mod Overtaken
use nephos.Base.{
  ℕ, zero, suc, Bool, true, false, not, ◌&&◌, Option, none, some, List, [], ◌∷◌, if◌then◌else◌,
  keep, Str, codes, Result, ok, err,
}
use nephos.Model.{Vpc, Subnet}
use nephos.Errors.{Error, no_rows, stale_snapshot, failure}
use nephos.Store.Tables.{Db}
use nephos.Store.Resources.{get_vpc, list_subnets_by_vpc}
use nephos.Store.Reconcile.{record_topology, is_nil}
use nephos.Controller.Queue.{Controller, enqueue, pop, retry, clear_retry}

module _ (K : Type 0) where
  -- NetworkEngine; an error is its text
  pub record NetworkEngine : Type 0 where
    pub ensure_vpc : Vpc → List Subnet → K → Option Str × K
    pub delete_vpc : Vpc → K → Option Str × K
    pub list_vpc_names : K → Result Error (List Str)

  pub record World : Type 0 where
    pub controller : Controller
    pub db : Db
    pub kernel : K

-- what else happens in the course of a round: the commits of other goroutines between the two
-- reads, and during the work of the engine; and the clock, in the units of the database and of retry
pub record Round : Type 0 where
  pub between_reads : Db → Db
  pub during_effect : Db → Db
  pub recorded_at : ℕ
  pub retried_at : ℕ

-- the subnets that the engine is to provide
abbrev pub active : List Subnet → List Subnet
active = keep (λ s. not s.deletion_requested)

-- what becomes of the retry of a VPC
abbrev pub after_effect : Str → ℕ → Option Str → Controller → Controller
after_effect id now none c = clear_retry id c
after_effect id now (some reason) c = retry id now c

module _ {K : Type 0} where
  -- what follows RecordTopology
  abbrev pub recorded :
      Str
      → ℕ
      → Option Str
      → Controller
      → K
      → Result Error (Unit {0}) × Db
      → Result Error (Unit {0}) × World K
  recorded id now effect c k (ok u, db) =
      (ok tt, record { controller = after_effect id now effect c; db = db; kernel = k })
  recorded id now effect c k (err stale_snapshot, db) =
      (ok tt, record { controller = enqueue id c; db = db; kernel = k })
  recorded id now effect c k (err e, db) = (err e, record { controller = c; db = db; kernel = k })

  abbrev pub drained_one :
      (World K → Option (Result Error (Unit {0}) × World K))
      → Result Error (Unit {0}) × World K
      → Option (Result Error (Unit {0}) × World K)
  drained_one next (err e, w) = some (err e, w)
  drained_one next (ok u, w) = next w

module _ {K : Type 0} (engine : NetworkEngine K) where
  -- DeleteVPC or EnsureVPC of the engine
  unfoldable pub apply_desired : Vpc → List Subnet → K → Option Str × K
  apply_desired v subnets k =
      if v.deletion_requested then engine.delete_vpc v k else engine.ensure_vpc v (active subnets) k

  unfoldable pub converge :
      Round → Str → Vpc → List Subnet → World K → Result Error (Unit {0}) × World K
  converge round id v subnets w =
      let (effect, k) = apply_desired v subnets w.kernel in
      recorded id round.retried_at effect w.controller k
        (record_topology v subnets effect round.recorded_at (round.during_effect w.db))

  abbrev pub subnets_read :
      Round
      → Str
      → Vpc
      → World K
      → Result Error (List Subnet × Db)
      → Result Error (Unit {0}) × World K
  subnets_read round id v w (err e) = (err e, w)
  subnets_read round id v w (ok (subnets, db)) =
      if v.deletion_requested && not (is_nil subnets)
      then (err failure, w)
      else converge round id v subnets w

  abbrev pub vpc_read :
      Round → Str → World K → Result Error (Vpc × Db) → Result Error (Unit {0}) × World K
  vpc_read round id w (err no_rows) = (ok tt, record w { controller = clear_retry id w.controller })
  vpc_read round id w (err e) = (err e, w)
  vpc_read round id w (ok (v, db)) =
      let w' = record w { db = round.between_reads w.db } in
      subnets_read round id v w' (list_subnets_by_vpc id w'.db)

  -- reconcileLocked
  unfoldable pub reconcile_locked : Round → Str → World K → Result Error (Unit {0}) × World K
  reconcile_locked round id w = vpc_read round id w (get_vpc (codes "default") id w.db)

  abbrev pub drain_popped :
      (World K → Option (Result Error (Unit {0}) × World K))
      → Round
      → Str
      → World K
      → Option (Result Error (Unit {0}) × World K)
  drain_popped next round [] w = some (ok tt, w)
  drain_popped next round (x ∷ id) w = drained_one next (reconcile_locked round (x ∷ id) w)

  -- the loop `for id := c.pop(); id != ""; id = c.pop()` of Run. `pick` and `round` say what the
  -- runtime and the others do in the rounds, counted from `n`; `none` is the end of the fuel.
  unfoldable pub drain :
      (ℕ → ℕ) → (ℕ → Round) → ℕ → ℕ → World K → Option (Result Error (Unit {0}) × World K)
  drain pick round zero n w = none
  drain pick round (suc fuel) n w =
      let p = pop (pick n) w.controller in
      drain_popped (drain pick round fuel (suc n)) (round n) p.0 (record w { controller = p.1 })
