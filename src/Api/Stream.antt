-- ===== src/Api/Stream.antt =====
-- internal/apiserver/events.go: GetEvents.
pub mod Complete
use nephos.Base.{
  ℕ, zero, suc, Bool, true, false, List, [], ◌∷◌, ◌++◌, Option, none, some, map, Str, codes,
  if◌then◌else◌, Result, ok, err,
}
use nephos.Errors.{Error}
use nephos.Store.Tables.{Db, EventRow}
use nephos.Store.Log.{events_after}
use nephos.Kernel.Decimals.{ℤ, pos, negsuc, format_int, parse_int}

-- `cursor = event.ID` for each event of a page
unfoldable pub cursor_after : ℕ → List EventRow → ℕ
cursor_after cursor [] = cursor
cursor_after cursor (e ∷ events) = cursor_after e.id events

-- what the stream has sent, and its cursor
abbrev pub Sent : Type 0
Sent = List EventRow × ℕ

abbrev pub and_then : List EventRow → Sent → Sent
and_then page rest = (page ++ rest.0, rest.1)

abbrev pub polled : (ℕ → Sent) → ℕ → Result Error (List EventRow) → Sent
polled next cursor (err e) = ([], cursor)
polled next cursor (ok page) = and_then page (next (cursor_after cursor page))

-- the loop, which polls the databases `seen 0`, `seen 1`, … until the client leaves
unfoldable pub stream : ℕ → (ℕ → Db) → ℕ → Sent
stream zero seen cursor = ([], cursor)
stream (suc polls) seen cursor =
    polled (stream polls (λ n. seen (suc n))) cursor (events_after cursor 100 (seen 0))

-- the text of an event; `payload` is what json.Marshal makes of it
abbrev pub event_text : (EventRow → Str) → EventRow → Str
event_text payload e =
    codes "id: " ++ format_int (pos e.id) ++ 10 ∷ codes "data: " ++ payload e ++ 10 ∷ 10 ∷ []

-- the body that the events make
unfoldable pub stream_text : (EventRow → Str) → List EventRow → Str
stream_text payload [] = []
stream_text payload (e ∷ events) = event_text payload e ++ stream_text payload events

abbrev pub checked_cursor : Option ℤ → Option ℕ
checked_cursor none = none
checked_cursor (some (pos n)) = some n
checked_cursor (some (negsuc n)) = none

-- the cursor that the header Last-Event-ID asks for
abbrev pub asked_cursor : Option Str → Option ℕ
asked_cursor none = some 0
asked_cursor (some header) = checked_cursor (parse_int header)

pub data EventsReply : Type 0 where
  unavailable bad_request no_flusher : EventsReply
  streamed : Sent → EventsReply

abbrev pub streamed_from : Bool → ℕ → (ℕ → Db) → Option ℕ → EventsReply
streamed_from flushes polls seen none = bad_request
streamed_from flushes polls seen (some cursor) =
    if flushes then streamed (stream polls seen cursor) else no_flusher

-- GetEvents for a client that stays for some polls
unfoldable pub get_events : Bool → Bool → Option Str → ℕ → (ℕ → Db) → EventsReply
get_events ready flushes header polls seen =
    if ready then streamed_from flushes polls seen (asked_cursor header) else unavailable
