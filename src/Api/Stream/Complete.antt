-- ===== src/Api/Stream/Complete.antt =====
-- internal/apiserver/events.go: what a client of GetEvents receives.
use nephos.Base.{
  ℕ, zero, suc, ◌<◌, ◌^◌, ◌≡◌, refl, sym, ap, ◌∙◌, true, List, [], ◌∷◌, ◌++◌, some, arith, ltb,
  take, keep, length, length-append, length-take, ◌+◌, ◌*◌, ◌≤◌,
}
use Prim.Native.Nat.{min}
use mathlib.Core.Path.{subst}
use mathlib.Core.List.{append_assoc, append-nil}
use nephos.Store.Tables.{Db, EventRow}
use nephos.Store.Log.{events_after}
use nephos.Store.Log.Resume.{Ascending, last_seen, resume}
use nephos.Kernel.Decimals.{pos, format_int}
use nephos.Kernel.Decimals.RoundTrip.{parse_int-format_int}
use nephos.Api.Stream.{
  cursor_after, stream, EventsReply, streamed, streamed_from, checked_cursor, get_events,
}

-- the events after an ID
abbrev pub beyond : ℕ → List EventRow → List EventRow
beyond id = keep (λ r. ltb id r.id)

-- the databases that a stream sees: event IDs ascend, and the log is only added to
pub record IsHistory (seen : ℕ → Db) : Type 0 where
  pub ascending : (n : ℕ) → Ascending 0 (seen n).events
  pub added : ℕ → List EventRow
  pub grows : (n : ℕ) → (seen (suc n)).events ≡ (seen n).events ++ added n

later : (seen : ℕ → Db) → IsHistory seen → IsHistory (λ n. seen (suc n))
later seen h = record {
  ascending = λ n. h.ascending (suc n);
  added = λ n. h.added (suc n);
  grows = λ n. h.grows (suc n);
}

-- the log at some poll is the log at the first with more behind it
extended :
    (seen : ℕ → Db) (n : ℕ)
    → IsHistory seen
    → (more : List EventRow) × ((seen n).events ≡ (seen 0).events ++ more)
extended seen zero h = ([], sym (append-nil (seen 0).events))
extended seen (suc n) h =
    let (more, e) = extended (λ k. seen (suc k)) n (later seen h) in
    (
      h.added 0 ++ more,
      e ∙ ap (λ xs. xs ++ more) (h.grows 0) ∙ append_assoc (seen 0).events (h.added 0) more,
    )

cursor_after_lem :
    (cursor : ℕ) (page : List EventRow) → cursor_after cursor page ≡ last_seen cursor page
unfolding cursor_after
cursor_after_lem cursor [] = refl
cursor_after_lem cursor (e ∷ page) = cursor_after_lem e.id page

beyond-append :
    (id : ℕ) (xs ys : List EventRow) → beyond id (xs ++ ys) ≡ beyond id xs ++ beyond id ys
beyond-append id [] ys = refl
beyond-append id (x ∷ xs) ys = ground (arith, beyond-append id xs ys)

take-prefix : (n : ℕ) (xs ys : List EventRow) → take (length (take n xs)) (xs ++ ys) ≡ take n xs
take-prefix zero xs ys = refl
take-prefix (suc n) [] ys = refl
take-prefix (suc n) (x ∷ xs) ys = ap (λ zs. x ∷ zs) (take-prefix n xs ys)

-- A page of an earlier log leads a reader through a later one.
page-resume :
    (id : ℕ) (es more : List EventRow)
    → Ascending 0 (es ++ more)
    → take 100 (beyond id es) ++ beyond (last_seen id (take 100 (beyond id es))) (es ++ more)
      ≡ beyond id (es ++ more)
page-resume id es more a =
    let page = take 100 (beyond id es) in
    let same : take (length page) (beyond id (es ++ more)) ≡ page =
      ap (take (length page)) (beyond-append id es more)
      ∙ take-prefix 100 (beyond id es) (beyond id more) in
    subst (λ p. p ++ beyond (last_seen id p) (es ++ more) ≡ beyond id (es ++ more)) same
      (resume 0 id (length page) (es ++ more) a)

stream_complete :
    (polls : ℕ) (seen : ℕ → Db) (cursor : ℕ)
    → IsHistory seen
    → (stream polls seen cursor).0 ++ beyond (stream polls seen cursor).1 (seen polls).events
      ≡ beyond cursor (seen polls).events
unfolding stream events_after
stream_complete zero seen cursor h = refl
stream_complete (suc polls) seen cursor h =
    let es = (seen 0).events in
    let page = take 100 (beyond cursor es) in
    let next = cursor_after cursor page in
    let rest = stream polls (λ n. seen (suc n)) next in
    let (more, e) = extended seen (suc polls) h in
    let resumed =
      subst (λ xs. page ++ beyond (last_seen cursor page) xs ≡ beyond cursor xs) (sym e)
        (page-resume cursor es more (subst (Ascending 0) e (h.ascending (suc polls)))) in
    append_assoc page rest.0 (beyond rest.1 (seen (suc polls)).events)
    ∙ ap (λ xs. page ++ xs) (stream_complete polls (λ n. seen (suc n)) next (later seen h))
    ∙ ap (λ c. page ++ beyond c (seen (suc polls)).events) (cursor_after_lem cursor page)
    ∙ resumed

-- What is after the cursor once a page is sent, in the log of the next poll.
left_over :
    (seen : ℕ → Db) (cursor : ℕ)
    → IsHistory seen
    → length (beyond cursor (seen 0).events)
      ≤ length (take 100 (beyond cursor (seen 0).events))
        + length (
            beyond (cursor_after cursor (take 100 (beyond cursor (seen 0).events))) (seen 1).events)
left_over seen cursor h =
    let es = (seen 0).events in
    let page = take 100 (beyond cursor es) in
    let next = last_seen cursor page in
    let all = ap length (resume 0 cursor 100 es (h.ascending 0)) in
    let grown = ap (λ xs. length (beyond next xs)) (h.grows 0) in
    let split = ap length (beyond-append next es (h.added 0)) in
    rw (cursor_after_lem cursor page) (
      omega (
        arith,
        all,
        grown,
        split,
        length-append page (beyond next es),
        length-append (beyond next es) (beyond next (h.added 0)),
      ))

stream_prompt :
    (polls : ℕ) (seen : ℕ → Db) (cursor : ℕ)
    → IsHistory seen
    → min (100 * polls) (length (beyond cursor (seen 0).events))
      ≤ length (stream polls seen cursor).0
unfolding stream events_after
stream_prompt zero seen cursor h = omega arith
stream_prompt (suc polls) seen cursor h =
    let es = (seen 0).events in
    let page = take 100 (beyond cursor es) in
    let next = cursor_after cursor page in
    let rest = stream polls (λ n. seen (suc n)) next in
    omega (
      arith,
      stream_prompt polls (λ n. seen (suc n)) next (later seen h),
      left_over seen cursor h,
      length-take 100 (beyond cursor es),
      length-append page rest.0,
    )

-- the stream has sent the first of the events after the cursor, those that the log held at first as
-- far as pages of 100 go; the rest are after its own cursor
pub record IsStream (cursor polls : ℕ) (seen : ℕ → Db) (reply : EventsReply) : Type 0 where
  pub sent : List EventRow
  pub reached : ℕ
  pub replied : reply ≡ streamed (sent, reached)
  pub complete : sent ++ beyond reached (seen polls).events ≡ beyond cursor (seen polls).events
  pub prompt : min (100 * polls) (length (beyond cursor (seen 0).events)) ≤ length sent

-- When event IDs ascend and the log is only added to, GetEvents with the decimal text of a
-- number below 2 ^ 63 as Last-Event-ID streams from that event on: what it has sent after some
-- polls, followed by the events after its cursor, is all events after the asked one, in order,
-- in the log of the next poll; and it has sent at least as many events as the first log held
-- after the asked one, up to 100 for each poll.
pub get_events-IsStream :
    (cursor polls : ℕ) (seen : ℕ → Db)
    → cursor < 2 ^ 63
    → IsHistory seen
    → IsStream cursor polls seen (get_events true true (some (format_int (pos cursor))) polls seen)
unfolding get_events
get_events-IsStream cursor polls seen small h =
    let sent = stream polls seen cursor in
    record {
      sent = sent.0;
      reached = sent.1;
      replied =
          ap (λ o. streamed_from true polls seen (checked_cursor o))
            (parse_int-format_int cursor small);
      complete = stream_complete polls seen cursor h;
      prompt = stream_prompt polls seen cursor h;
    }
