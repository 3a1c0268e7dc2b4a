-- ===== src/Controller/Queue.antt =====
-- internal/reconcile/controller.go: the queue of hints and the retries of the VPC controller. Time
-- is counted in nanoseconds, as a time.Duration is.
pub mod Bounds
pub mod Backoff
use nephos.Base.{
  ℕ, zero, suc, ◌+◌, ◌*◌, ◌-◌, Bool, true, false, ◌&&◌, Option, none, some, List, [], ◌∷◌, ltb, leb,
  ◌==◌, if◌then◌else◌, length, Str, Map, lookup, put, remove,
}

abbrev pub millisecond : ℕ
millisecond = 1000000

abbrev pub queue_limit : ℕ
queue_limit = 1024

abbrev pub retry_base : ℕ
retry_base = 100 * millisecond

abbrev pub retry_max : ℕ
retry_max = 30000 * millisecond

pub record RetryEntry : Type 0 where
  pub attempt : ℕ
  pub due : ℕ

-- the fields of Controller that its mutex guards, and whether the channel `wake` holds a value
pub record Controller : Type 0 where
  pub pending : Map (Unit {0})
  pub retries : Map RetryEntry
  pub wake : Bool

-- New
abbrev pub new_controller : Controller
new_controller = record { pending = []; retries = []; wake = false }

abbrev pub has_room : Map (Unit {0}) → Bool
has_room pending = ltb (length pending) queue_limit

-- Enqueue
unfoldable pub enqueue : Str → Controller → Controller
enqueue [] c = c
enqueue (x ∷ id) c = record c {
  pending = if has_room c.pending then put (x ∷ id) tt c.pending else c.pending;
  wake = true;
}

-- the key that a range over the map visits first, which the runtime chooses by `pick`
unfoldable pub first_key : ℕ → Map (Unit {0}) → Option Str
first_key pick [] = none
first_key zero ((k, u) ∷ m) = some k
first_key (suc pick) ((k, u) ∷ []) = some k
first_key (suc pick) ((k, u) ∷ e ∷ m) = first_key pick (e ∷ m)

abbrev pub popped : Controller → Option Str → Str × Controller
popped c none = ([], c)
popped c (some id) = (id, record c { pending = remove id c.pending })

-- pop
unfoldable pub pop : ℕ → Controller → Str × Controller
pop pick c = popped c (first_key pick c.pending)

-- `entry := c.retries[vpcID]`: the zero value if there is none
abbrev pub entry_or_zero : Option RetryEntry → RetryEntry
entry_or_zero none = record { attempt = 0; due = 0 }
entry_or_zero (some e) = e

abbrev pub doubled : ℕ → ℕ
doubled delay = if ltb retry_max (delay * 2) then retry_max else delay * 2

-- the loop of retry: `rounds` is what is left of `n < entry.attempt`
unfoldable pub backoff : ℕ → ℕ → ℕ
backoff zero delay = delay
backoff (suc rounds) delay =
    let rest = backoff rounds (doubled delay) in if ltb delay retry_max then rest else delay

unfoldable pub retry_delay : ℕ → ℕ
retry_delay attempt = backoff (attempt - 1) retry_base

abbrev pub retried : Str → ℕ → RetryEntry → Controller → Controller
retried id now e c = record c {
  retries =
      put id (record { attempt = e.attempt + 1; due = now + retry_delay (e.attempt + 1) })
        c.retries;
}

-- retry; `now` is time.Now()
unfoldable pub retry : Str → ℕ → Controller → Controller
retry id now c =
    let e = entry_or_zero (lookup id c.retries) in
    if leb queue_limit (length c.retries) && e.attempt == 0 then c else retried id now e c

-- clearRetry
unfoldable pub clear_retry : Str → Controller → Controller
clear_retry id c = record c { retries = remove id c.retries }

-- one round of the loop of enqueueDueRetries, which visits the retries in the order of the list
abbrev pub is_due : ℕ → Map (Unit {0}) → RetryEntry → Bool
is_due now pending e = leb e.due now && has_room pending

unfoldable pub due_retries : ℕ → Map (Unit {0}) → Map RetryEntry → Map (Unit {0}) × Map RetryEntry
due_retries now pending [] = (pending, [])
due_retries now pending ((id, e) ∷ retries) =
    let ready = is_due now pending e in
    let rest = due_retries now (if ready then put id tt pending else pending) retries in
    (rest.0, (id, if ready then record e { due = now + retry_max } else e) ∷ rest.1)

-- enqueueDueRetries
unfoldable pub enqueue_due_retries : ℕ → Controller → Controller
enqueue_due_retries now c =
    let r = due_retries now c.pending c.retries in record c { pending = r.0; retries = r.1 }

-- what the goroutines do to the controller, in the order in which they take its mutex
pub data QueueEvent : Type 0 where
  enqueued : Str → QueueEvent
  popped_at : ℕ → QueueEvent
  failed_at : Str → ℕ → QueueEvent
  succeeded : Str → QueueEvent
  ticked : ℕ → QueueEvent
  woken : QueueEvent

unfoldable pub handle : QueueEvent → Controller → Controller
handle (enqueued id) c = enqueue id c
handle (popped_at pick) c = (pop pick c).1
handle (failed_at id now) c = retry id now c
handle (succeeded id) c = clear_retry id c
handle (ticked now) c = enqueue_due_retries now c
handle woken c = record c { wake = false }

unfoldable pub handle_all : List QueueEvent → Controller → Controller
handle_all [] c = c
handle_all (e ∷ events) c = handle_all events (handle e c)
