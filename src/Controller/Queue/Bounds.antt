-- ===== src/Controller/Queue/Bounds.antt =====
-- internal/reconcile/controller.go: the sizes of the queue and of the retries.
use nephos.Base.{
  ℕ, ◌≤◌, ◌<◌, ◌≡◌, refl, arith, List, [], ◌∷◌, leb, Bool-cases, inl, inr, false, Str, Map, length,
  Option, none, some, if◌then◌else◌, lookup, put, length-put, length-remove, has-lookup, ◌&&◌, ◌==◌,
}
use nephos.Controller.Queue.{
  Controller, RetryEntry, QueueEvent, queue_limit, new_controller, enqueue, pop, popped, first_key,
  retry, entry_or_zero, clear_retry, is_due, due_retries, enqueue_due_retries, handle, handle_all,
  enqueued, popped_at, failed_at, succeeded, ticked, woken,
}

pub record IsBounded (c : Controller) : Type 0 where
  pub pending_fit : length c.pending ≤ queue_limit
  pub retries_fit : length c.retries ≤ queue_limit

module _ {A : Type 0} where
  put_fits :
      (k : Str) (a : A) (m : Map A) → length m < queue_limit → length (put k a m) ≤ queue_limit
  put_fits k a m h = ground (arith, length-put k a m)

enqueue-IsBounded : (id : Str) (c : Controller) → IsBounded c → IsBounded (enqueue id c)
unfolding enqueue
enqueue-IsBounded [] c b = b
enqueue-IsBounded (x ∷ id) c b = record {
  pending_fit = ground (arith, put_fits (x ∷ id) tt c.pending);
  retries_fit = b.retries_fit;
}

popped-IsBounded : (c : Controller) (o : Option Str) → IsBounded c → IsBounded (popped c o).1
popped-IsBounded c none b = b
popped-IsBounded c (some id) b = record {
  pending_fit = omega (arith, length-remove id c.pending, b.pending_fit);
  retries_fit = b.retries_fit;
}

-- A retry that is taken belongs to an ID that has an entry, or finds room for one more.
put_taken :
    (id : Str) (e : RetryEntry) (retries : Map RetryEntry) (o : Option RetryEntry)
    → lookup id retries ≡ o
    → (leb queue_limit (length retries) && (entry_or_zero o).attempt == 0) ≡ false
    → length retries ≤ queue_limit
    → length (put id e retries) ≤ queue_limit
put_taken id e retries none f g h = ground (arith, length-put id e retries)
put_taken id e retries (some d) f g h =
    ground (arith, length-put id e retries, has-lookup id d retries)

retries-fit :
    (id : Str) (now : ℕ) (c : Controller)
    → length c.retries ≤ queue_limit
    → length (retry id now c).retries ≤ queue_limit
unfolding retry
retries-fit id now c h =
    let e = entry_or_zero (lookup id c.retries) in
    elim (Bool-cases (leb queue_limit (length c.retries) && e.attempt == 0)) [
      | inl full ↦ rw full h
      | inr room ↦ rw room (put_taken id _ c.retries (lookup id c.retries) refl room h)
    ]

retry-IsBounded : (id : Str) (now : ℕ) (c : Controller) → IsBounded c → IsBounded (retry id now c)
unfolding retry
retry-IsBounded id now c b = record {
  pending_fit = ground (arith, b.pending_fit);
  retries_fit = retries-fit id now c b.retries_fit;
}

due_fits :
    (now : ℕ) (pending : Map (Unit {0})) (retries : Map RetryEntry)
    → length pending ≤ queue_limit
    → (length (due_retries now pending retries).0 ≤ queue_limit)
      × (length (due_retries now pending retries).1 ≡ length retries)
unfolding due_retries
due_fits now pending [] h = (h, refl)
due_fits now pending ((id, e) ∷ retries) h =
    let added : length (if is_due now pending e then put id tt pending else pending) ≤ queue_limit =
      ground (arith, put_fits id tt pending) in
    let rest =
      due_fits now (if is_due now pending e then put id tt pending else pending) retries added in
    (rest.0, omega (arith, rest.1))

handle-IsBounded : (e : QueueEvent) (c : Controller) → IsBounded c → IsBounded (handle e c)
unfolding handle
handle-IsBounded (enqueued id) c b = enqueue-IsBounded id c b
handle-IsBounded (popped_at pick) c b =
    unfold pop in popped-IsBounded c (first_key pick c.pending) b
handle-IsBounded (failed_at id now) c b = retry-IsBounded id now c b
handle-IsBounded (succeeded id) c b =
    unfold clear_retry in
    record {
      pending_fit = b.pending_fit;
      retries_fit = omega (arith, length-remove id c.retries, b.retries_fit);
    }
handle-IsBounded (ticked now) c b =
    unfold enqueue_due_retries in
    let r = due_fits now c.pending c.retries b.pending_fit in
    record { pending_fit = r.0; retries_fit = omega (arith, r.1, b.retries_fit) }
handle-IsBounded woken c b = record { pending_fit = b.pending_fit; retries_fit = b.retries_fit }

run-IsBounded :
    (events : List QueueEvent) (c : Controller) → IsBounded c → IsBounded (handle_all events c)
unfolding handle_all
run-IsBounded [] c b = b
run-IsBounded (e ∷ events) c b = run-IsBounded events (handle e c) (handle-IsBounded e c b)

-- From a new controller, whatever hints, failures, successes and ticks of the clock follow one
-- another, there are never more than 1024 pending IDs and never more than 1024 retries.
pub handle_all-IsBounded : (events : List QueueEvent) → IsBounded (handle_all events new_controller)
handle_all-IsBounded events =
    run-IsBounded events new_controller
      (record { pending_fit = omega arith; retries_fit = omega arith })
