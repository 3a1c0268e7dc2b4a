-- ===== src/Controller/Vpcs/Drained.antt =====
-- internal/reconcile/controller.go: the loop of Run that empties the queue.
use nephos.Base.{
  ℕ, zero, suc, ◌<◌, ◌≡◌, ◌≢◌, refl, ap, ◌∙◌, inl, inr, true, false, not, ◌&&◌, Option, none, some,
  List, [], ◌∷◌, Bool-cases, arith, Str, codes, Map, has, length, length-remove-has, has-remove,
  str_eq, str_eq_refl, Result, ok, err,
}
use nephos.Model.{Vpc, Subnet}
use nephos.Errors.{Error, no_rows, stale_snapshot}
use nephos.Store.Tables.{Db}
use nephos.Store.Tx.{settle, with_tx}
use nephos.Store.Resources.{get_vpc, list_subnets_by_vpc}
use nephos.Store.Reconcile.{record_topology, is_nil}
use nephos.Service.Network.Effects.{list_subnets_by_vpc-ok}
use nephos.Controller.Queue.{Controller, first_key, pop, popped, retry, clear_retry}
use nephos.Controller.Vpcs.{
  NetworkEngine, World, Round, apply_desired, after_effect, recorded, converge, subnets_read,
  vpc_read, reconcile_locked, drained_one, drain_popped, drain,
}
use nephos.Controller.Vpcs.Quiet.{
  get_vpc-keys, record_current, record_current-NeverStale, record_topology_tx-current,
}

-- nothing else commits in the course of the round
pub record IsQuiet (round : Round) : Type 0 where
  pub reads_quiet : (db : Db) → round.between_reads db ≡ db
  pub effect_quiet : (db : Db) → round.during_effect db ≡ db

-- Without other commits RecordTopology finds the snapshot to be current.
pub record_topology-quiet :
    (v : Vpc) (subnets : List Subnet) (effect : Option Str) (now : ℕ) (w id : Str) (db : Db)
    {db1 db2 : Db}
    → get_vpc w id db ≡ ok (v, db1)
    → list_subnets_by_vpc id db ≡ ok (subnets, db2)
    → record_topology v subnets effect now db ≡ settle db (record_current v subnets effect now db)
unfolding record_topology with_tx
record_topology-quiet v subnets effect now w id db found listed =
    let (same_id, same_w, same) = get_vpc-keys w id db found in
    let (read, same') = list_subnets_by_vpc-ok id db listed in
    ap (settle db) (
      record_topology_tx-current v subnets effect now db
        (ap (λ x. get_vpc x v.id db) same_w
          ∙ ap (λ x. get_vpc w x db) same_id
          ∙ found
          ∙ ap (λ d. ok (v, d)) same)
        (ap (λ x. list_subnets_by_vpc x db) same_id ∙ listed ∙ ap (λ d. ok (subnets, d)) same'))

after_effect-pending :
    (id : Str) (now : ℕ) (effect : Option Str) (c : Controller)
    → (after_effect id now effect c).pending ≡ c.pending
unfolding clear_retry retry
after_effect-pending id now none c = refl
after_effect-pending id now (some reason) c = ground arith

module _ {K : Type 0} where
  recorded-pending :
      (id : Str) (now : ℕ) (effect : Option Str) (c : Controller) (k : K)
      (r : Result Error (Unit {0}) × Db)
      → r.0 ≢ err stale_snapshot
      → (recorded id now effect c k r).1.controller.pending ≡ c.pending
  recorded-pending id now effect c k (ok u, db) h = after_effect-pending id now effect c
  recorded-pending id now effect c k (err stale_snapshot, db) h = absurd (h refl)
  recorded-pending id now effect c k (err _, db) h = refl

settle-fresh :
    {A : Type 0} (db : Db) (r : Result Error (A × Db))
    → r ≢ err stale_snapshot
    → (settle db r).0 ≢ err stale_snapshot
settle-fresh db (ok (a, d)) h = λ p. ground arith
settle-fresh db (err e) h = λ p. h (ground arith)

module _ {K : Type 0} (engine : NetworkEngine K) (round : Round) (quiet : IsQuiet round) where
  converge-pending :
      (id : Str) (v : Vpc) (subnets : List Subnet) (w : World K) {db1 db2 : Db}
      → get_vpc (codes "default") id w.db ≡ ok (v, db1)
      → list_subnets_by_vpc id w.db ≡ ok (subnets, db2)
      → (converge engine round id v subnets w).1.controller.pending ≡ w.controller.pending
  unfolding converge
  converge-pending id v subnets w found listed =
      let effect = (apply_desired engine v subnets w.kernel).0 in
      recorded-pending id round.retried_at effect w.controller _ _ (
        rw
          (
            quiet.effect_quiet w.db,
            record_topology-quiet v subnets effect round.recorded_at (codes "default") id w.db found
                listed,
          )
          (settle-fresh w.db (record_current v subnets effect round.recorded_at w.db)
            ((record_current-NeverStale v subnets effect round.recorded_at).fresh w.db)))

  subnets_read-pending :
      (id : Str) (v : Vpc) (w : World K) {db1 : Db} (r : Result Error (List Subnet × Db))
      → get_vpc (codes "default") id w.db ≡ ok (v, db1)
      → list_subnets_by_vpc id w.db ≡ r
      → (subnets_read engine round id v w r).1.controller.pending ≡ w.controller.pending
  subnets_read-pending id v w (err e) found listed = refl
  subnets_read-pending id v w (ok (subnets, db2)) found listed =
      elim (Bool-cases (v.deletion_requested && not (is_nil subnets))) [
        | inl e ↦ rw e refl
        | inr e ↦ rw e (converge-pending id v subnets w found listed)
      ]

  vpc_read-pending :
      (id : Str) (w : World K) (r : Result Error (Vpc × Db))
      → get_vpc (codes "default") id w.db ≡ r
      → (vpc_read engine round id w r).1.controller.pending ≡ w.controller.pending
  unfolding clear_retry
  vpc_read-pending id w (err no_rows) found = refl
  vpc_read-pending id w (err _) found = refl
  vpc_read-pending id w (ok (v, db1)) found =
      rw (quiet.reads_quiet w.db) (subnets_read-pending id v w _ found refl)

  -- A quiet round enqueues nothing.
  pub reconcile_locked-pending :
      (id : Str) (w : World K)
      → (reconcile_locked engine round id w).1.controller.pending ≡ w.controller.pending
  unfolding reconcile_locked
  reconcile_locked-pending id w = vpc_read-pending id w _ refl

first_key-has :
    (pick : ℕ) (m : Map (Unit {0})) {k : Str} → first_key pick m ≡ some k → has k m ≡ true
unfolding first_key has
first_key-has pick [] h = absurd (ground arith)
first_key-has zero ((j, u) ∷ m) {k} h = ground (arith, str_eq_refl k)
first_key-has (suc pick) ((j, u) ∷ []) {k} h = ground (arith, str_eq_refl k)
first_key-has (suc pick) ((j, u) ∷ e ∷ m) {k} h = ground (arith, first_key-has pick (e ∷ m) {k = k})

-- the loop ends, and if no round failed the queue is empty
pub record Drained {K : Type 0} (result : Option (Result Error (Unit {0}) × World K)) : Type 0 where
  pub outcome : Result Error (Unit {0})
  pub world : World K
  pub ended : result ≡ some (outcome, world)
  pub emptied : outcome ≡ ok tt → world.controller.pending ≡ []

first_key-none : (pick : ℕ) (m : Map (Unit {0})) → first_key pick m ≡ none → m ≡ []
unfolding first_key
first_key-none pick [] h = refl
first_key-none zero ((j, u) ∷ m) h = absurd (ground arith)
first_key-none (suc pick) ((j, u) ∷ []) h = absurd (ground arith)
first_key-none (suc pick) ((j, u) ∷ e ∷ m) h =
    let none_there = first_key-none pick (e ∷ m) h in absurd (ground arith)

module _ {K : Type 0} (fuel : ℕ) (next : World K → Option (Result Error (Unit {0}) × World K)) where
  -- the rest of the loop ends on a queue that its fuel covers
  abbrev Ends : Type 0
  Ends =
      (w : World K)
      → has [] w.controller.pending ≡ false
      → length w.controller.pending < fuel
      → Drained (next w)

  drained_one-Drained :
      (r : Result Error (Unit {0}) × World K)
      → has [] r.1.controller.pending ≡ false
      → length r.1.controller.pending < fuel
      → Ends
      → Drained (drained_one next r)
  drained_one-Drained (err e, w) named enough ends = record {
    outcome = err e;
    world = w;
    ended = refl;
    emptied = λ p. absurd (ground arith);
  }
  drained_one-Drained (ok u, w) named enough ends = ends w named enough

  popped-Drained :
      (engine : NetworkEngine K) (round : Round)
      → IsQuiet round
      → (pick : ℕ) (w : World K) (o : Option Str) → first_key pick w.controller.pending ≡ o
      → has [] w.controller.pending ≡ false
      → length w.controller.pending < suc fuel
      → Ends
      → Drained (
          drain_popped engine next round
            (popped w.controller o).0
            (record w { controller = (popped w.controller o).1 }))
  unfolding str_eq
  popped-Drained engine round quiet pick w none e named enough ends = record {
    outcome = ok tt;
    world = w;
    ended = refl;
    emptied = λ _. first_key-none pick w.controller.pending e;
  }
  popped-Drained engine round quiet pick w (some []) e named enough ends =
      absurd (cc (named, first_key-has pick w.controller.pending e))
  popped-Drained engine round quiet pick w (some (x ∷ id)) e named enough ends =
      let pending = w.controller.pending in
      let left = record w { controller = (popped w.controller (some (x ∷ id))).1 } in
      let kept = has-remove [] (x ∷ id) pending ∙ named in
      let same = reconcile_locked-pending engine round quiet (x ∷ id) left in
      drained_one-Drained (reconcile_locked engine round (x ∷ id) left) (ap (has []) same ∙ kept)
        (omega (
          arith,
          ap length same,
          length-remove-has (x ∷ id) pending (first_key-has pick pending e),
        ))
        ends

module _ {K : Type 0} (engine : NetworkEngine K) (pick : ℕ → ℕ) (round : ℕ → Round)
    (quiet : (n : ℕ) → IsQuiet (round n)) where
  -- When nothing else commits during the rounds and no pending ID is empty, the loop of Run that
  -- takes hints off the queue ends within one round for each pending ID, in whatever order the
  -- runtime visits them, and leaves the queue empty unless a round failed.
  pub drain-Drained :
      (fuel n : ℕ) (w : World K)
      → has [] w.controller.pending ≡ false
      → length w.controller.pending < fuel
      → Drained (drain engine pick round fuel n w)
  unfolding drain pop
  drain-Drained zero n w named enough = absurd (omega arith)
  drain-Drained (suc fuel) n w named enough =
      popped-Drained fuel (drain engine pick round fuel (suc n)) engine (round n) (quiet n) (pick n)
        w (first_key (pick n) w.controller.pending) refl named enough (drain-Drained fuel (suc n))
