-- ===== src/Store/Log/Resume.antt =====
-- internal/store/events.go: pages of the event log, and the log that AppendEvent extends.
use nephos.Base.{
  ℕ, zero, suc, ◌+◌, ◌≤◌, ◌<◌, ◌≡◌, refl, sym, ap, ◌∙◌, inl, inr, List, [], ◌∷◌, ◌++◌, arith, ltb,
  Bool-cases, take, All, keep, ok, ◌||◌, true, false,
}
use mathlib.Core.Path.{subst}
use nephos.Store.Tables.{Db, EventRow}
use nephos.Store.Vpcs.{workspace_exists}
use nephos.Store.Log.{Event, append_event, event_row, events_after}

-- the IDs ascend
abbrev pub Ascending : ℕ → List EventRow → Type 0
Ascending low [] = Unit
Ascending low (e ∷ es) = (low < e.id) × Ascending e.id es

-- the ID of the last event of a page, or the one that the page follows
abbrev pub last_seen : ℕ → List EventRow → ℕ
last_seen id [] = id
last_seen id (e ∷ es) = last_seen e.id es

Ascending-weaken : (a b : ℕ) (es : List EventRow) → a ≤ b → Ascending b es → Ascending a es
Ascending-weaken a b [] l h = tt
Ascending-weaken a b (e ∷ es) l h = (omega arith, h.1)

keep-all : (id : ℕ) (es : List EventRow) → Ascending id es → keep (λ r. ltb id r.id) es ≡ es
keep-all id [] h = refl
keep-all id (e ∷ es) (l, h) =
    let rest = keep-all id es (Ascending-weaken id e.id es (omega arith) h) in ground arith

last_seen-above :
    (id a : ℕ) (es : List EventRow) → id ≤ a → All (λ r. id < r.id) es → id ≤ last_seen a es
last_seen-above id a [] l h = l
last_seen-above id a (e ∷ es) l (k, h) = last_seen-above id e.id es (omega arith) h

Ascending-above : (id : ℕ) (es : List EventRow) → Ascending id es → All (λ r. id < r.id) es
Ascending-above id [] h = tt
Ascending-above id (e ∷ es) (l, h) =
    (l, Ascending-above id es (Ascending-weaken id e.id es (omega arith) h))

take-above :
    (id limit : ℕ) (es : List EventRow)
    → All (λ r. id < r.id) es
    → All (λ r. id < r.id) (take limit es)
take-above id zero es h = tt
take-above id (suc limit) [] h = tt
take-above id (suc limit) (e ∷ es) h = (h.0, take-above id limit es h.1)

keep-above : (id : ℕ) (es : List EventRow) → All (λ r. id < r.id) (keep (λ r. ltb id r.id) es)
keep-above id [] = tt
keep-above id (e ∷ es) = elim (Bool-cases (ltb id e.id)) [
  | inl t ↦ rw t (ground arith, keep-above id es)
  | inr t ↦ rw t (keep-above id es)
]

drop_first :
    (low : ℕ) (e : EventRow) (es : List EventRow)
    → e.id ≤ low
    → keep (λ r. ltb low r.id) (e ∷ es) ≡ keep (λ r. ltb low r.id) es
drop_first low e es l = ground arith

pages :
    (id limit : ℕ) (es : List EventRow)
    → Ascending id es
    → take limit es ++ keep (λ r. ltb (last_seen id (take limit es)) r.id) es ≡ es
pages id zero es h = keep-all id es h
pages id (suc limit) [] h = refl
pages id (suc limit) (e ∷ es) h =
    let last = last_seen e.id (take limit es) in
    let below : e.id ≤ last =
      last_seen-above e.id e.id (take limit es) (omega arith)
        (take-above e.id limit es (Ascending-above e.id es h.1)) in
    ap (λ xs. e ∷ (take limit es ++ xs)) (drop_first last e es below)
    ∙ ap (λ xs. e ∷ xs) (pages e.id limit es h.1)

pub resume :
    (low id limit : ℕ) (es : List EventRow)
    → Ascending low es
    → take limit (keep (λ r. ltb id r.id) es)
        ++ keep (λ r. ltb (last_seen id (take limit (keep (λ r. ltb id r.id) es))) r.id) es
      ≡ keep (λ r. ltb id r.id) es
resume low id zero [] h = refl
resume low id (suc limit) [] h = refl
resume low id limit (e ∷ es) h = elim (Bool-cases (ltb id e.id)) [
  | inl above ↦
      let t : id < e.id = ground arith in
      let all = keep-all id (e ∷ es) (t, h.1) in
      subst
        (λ xs. take limit xs ++ keep (λ r. ltb (last_seen id (take limit xs)) r.id) (e ∷ es) ≡ xs)
        (sym all) (pages id limit (e ∷ es) (t, h.1))
  | inr below ↦
      let t : e.id ≤ id = ground arith in
      let page = take limit (keep (λ r. ltb id r.id) es) in
      let u : id ≤ last_seen id page =
        last_seen-above id id page (omega arith)
          (take-above id limit (keep (λ r. ltb id r.id) es) (keep-above id es)) in
      let here = drop_first id e es t in
      let there = drop_first (last_seen id page) e es (omega arith) in
      subst
        (λ xs. take limit xs ++ keep (λ r. ltb (last_seen id (take limit xs)) r.id) (e ∷ es) ≡ xs)
        (sym here) (ap (λ ys. page ++ ys) there ∙ resume e.id id limit es h.1)
]

-- the events of a database: IDs ascend up to the counter
pub record IsLog (db : Db) : Type 0 where
  pub ascending : Ascending 0 db.events
  pub counted : last_seen 0 db.events ≤ db.last_event

Ascending-append :
    (low : ℕ) (es : List EventRow) (e : EventRow)
    → Ascending low es
    → last_seen low es < e.id
    → Ascending low (es ++ e ∷ [])
Ascending-append low [] e h l = (l, tt)
Ascending-append low (x ∷ es) e h l = (h.0, Ascending-append x.id es e h.1 l)

last_seen-append :
    (low : ℕ) (es : List EventRow) (e : EventRow) → last_seen low (es ++ e ∷ []) ≡ e.id
last_seen-append low [] e = refl
last_seen-append low (x ∷ es) e = last_seen-append x.id es e

append_event-IsLog :
    (row : EventRow) (db : Db)
    → row.id ≡ db.last_event + 1
    → IsLog db
    → IsLog (record db { events = db.events ++ row ∷ []; last_event = db.last_event + 1 })
append_event-IsLog row db e l = record {
  ascending = Ascending-append 0 db.events row l.ascending (let c = l.counted in omega arith);
  counted = rw (last_seen-append 0 db.events row) (omega arith);
}

-- nothing of a log follows an ID that is not below the last
keep-none :
    (low id : ℕ) (es : List EventRow)
    → Ascending low es
    → last_seen low es ≤ id
    → keep (λ r. ltb id r.id) es ≡ []
keep-none low id [] h l = refl
keep-none low id (e ∷ es) h l =
    let below = last_seen-above e.id e.id es (omega arith) (Ascending-above e.id es h.1) in
    drop_first id e es (omega arith) ∙ keep-none e.id id es h.1 l

keep-append :
    (id : ℕ) (es : List EventRow) (e : EventRow)
    → id < e.id
    → keep (λ r. ltb id r.id) (es ++ e ∷ []) ≡ keep (λ r. ltb id r.id) es ++ e ∷ []
keep-append id [] e l = ground arith
keep-append id (x ∷ es) e l = let rest = keep-append id es e l in ground arith

-- When event IDs ascend and do not exceed the counter, and the event's workspace exists,
-- AppendEvent succeeds, keeps that so, and a reader who has seen the log up to its last event
-- and asks for 1 to 100 events then gets one: the event with all its fields, under the counter's
-- next ID.
pub append_event-read :
    (e : Event) (db : Db) (seen limit : ℕ)
    → workspace_exists e.workspace_id db ≡ true
    → IsLog db
    → last_seen 0 db.events ≤ seen
    → seen ≤ db.last_event
    → 1 ≤ limit
    → limit ≤ 100
    → (db' : Db) × (append_event e db ≡ ok (tt, db'))
      × IsLog db'
      × (events_after seen limit db'
          ≡ ok (
              record {
                id = db.last_event + 1;
                workspace_id = e.workspace_id;
                resource_type = e.resource_type;
                resource_id = e.resource_id;
                action = e.action;
                state = e.state;
                generation = e.generation;
                message = e.message;
                created_at = e.created_at;
              }
              ∷ []))
unfolding append_event events_after
append_event-read e db seen (suc limit) known l above below some_asked few =
    let row = event_row (db.last_event + 1) e in
    let db' = record db { events = db.events ++ row ∷ []; last_event = db.last_event + 1 } in
    let within : (ltb (suc limit) 1 || ltb 100 (suc limit)) ≡ false = ground arith in
    (
      db',
      rw known refl,
      append_event-IsLog row db refl l,
      rw within (
          ap ok (
            ap (take (suc limit)) (
              keep-append seen db.events row (omega arith)
              ∙ ap (λ es. es ++ row ∷ []) (keep-none 0 seen db.events l.ascending above))
            ∙ take_one limit row)),
    )
  where
    take_one : (n : ℕ) (r : EventRow) → take (suc n) (r ∷ []) ≡ r ∷ []
    take_one zero r = refl
    take_one (suc n) r = refl
append_event-read e db seen zero known l above below some_asked few = absurd (omega arith)

-- When the event IDs of a database ascend, a page of events after an ID, followed by all events
-- after the last ID of the page, is all events after that ID, in order: a reader that resumes
-- there misses none and repeats none.
pub events_after-resume :
    (id limit : ℕ) (db : Db) (page : List EventRow)
    → IsLog db
    → events_after id limit db ≡ ok page
    → page ++ keep (λ r. ltb (last_seen id page) r.id) db.events ≡ keep (λ r. ltb id r.id) db.events
unfolding events_after
events_after-resume id limit db page l h =
    let shown : take limit (keep (λ r. ltb id r.id) db.events) ≡ page = ground arith in
    subst
      (λ p.
        p ++ keep (λ r. ltb (last_seen id p) r.id) db.events ≡ keep (λ r. ltb id r.id) db.events)
      shown (resume 0 id limit db.events l.ascending)
