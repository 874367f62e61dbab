-- ===== src/Tests/Web.antt =====
-- internal/web/server.go at concrete inputs: the cache, the idle shutdown and the event stream.
use logfalcon.Prelude.{
  ℕ, ◌≡◌, ◌*◌, refl, true, Option, some, List, [], ◌∷◌, arith, ltb, if◌then◌else◌, on_if, bytes_eq,
}
use logfalcon.Prelude.Texts.{ascii}
use logfalcon.Prelude.Ints.{pos}
use logfalcon.Sync.Status.{Status, text, first_status, set_status}
use logfalcon.Web.Files.Range.{Lacks}
use logfalcon.Web.Events.{send_payload, prev_after, send_changes, handle_sse}
use logfalcon.Web.Events.Followed.{
  events_of, marshalled, last_of, changes, OneLine, handle_sse-IsFollowed,
}
use logfalcon.Web.Cache.{new_cache, get_sessions}
use logfalcon.Web.Cache.Recent.{begins, gets, IsRecent, get_sessions-IsRecent}
use logfalcon.Web.Idle.{minute, Tick, is_active, monitor, idle_shutdown}
use logfalcon.Web.Idle.Quiet.{IsQuiet, idle_shutdown-IsQuiet}

-- A disk on which sessions appear with time.
abbrev listing : ℕ → Option (List ℕ)
listing moment = some (moment ∷ [])

get_sessions-IsRecent_example :
    IsRecent listing 0 9
      (get_sessions (listing 9) 9 9 (get_sessions (listing 5) 4 6 new_cache)).listed
get_sessions-IsRecent_example =
    get_sessions-IsRecent listing 9 9 9
      (gets 4 5 6 begins (omega arith) (omega arith) (omega arith)) (omega arith) (omega arith)
      (omega arith)

-- A sync at the first tick, and none two minutes later.
abbrev ticks : List Tick
ticks =
    record { state = ascii "syncing"; now = minute }
    ∷ record { state = ascii "idle"; now = 3 * minute }
    ∷ []

shuts : idle_shutdown (pos 2) 0 ticks ≡ some (3 * minute)
unfolding idle_shutdown monitor is_active
shuts = refl

idle_shutdown-IsQuiet_example : IsQuiet (2 * minute) 0 ticks (3 * minute)
idle_shutdown-IsQuiet_example =
    idle_shutdown-IsQuiet 1 0 ticks (3 * minute) (omega arith, (omega arith, tt)) shuts

-- A status as one of two texts.
abbrev marshal : Status → Option (List ℕ)
marshal status = some (if ltb 50 status.progress then ascii "late" else ascii "early")

marshal-OneLine : (s : Status) → OneLine (marshal s)
marshal-OneLine s =
    on_if (Lacks b'\n') (ltb 50 s.progress) _ _ (λ _. (refl, (refl, (refl, (refl, tt)))))
      (λ _. (refl, (refl, (refl, (refl, (refl, tt))))))

-- Four ticks, with a change at the third.
abbrev statuses : List Status
statuses =
    first_status
    ∷ set_status "reading" 20 (text "Copying.") first_status
    ∷ set_status "reading" 70 (text "Copying.") first_status
    ∷ set_status "reading" 80 (text "Copying.") first_status
    ∷ []

sends_two : (handle_sse marshal true statuses).body ≡ ascii "data: early\n\ndata: late\n\n"
unfolding handle_sse send_changes send_payload prev_after bytes_eq set_status
sends_two = refl

handle_sse-IsFollowed_example :
    (events_of (handle_sse marshal true statuses).body ≡ changes [] (marshalled marshal statuses))
    × (last_of [] (events_of (handle_sse marshal true statuses).body)
        ≡ last_of [] (marshalled marshal statuses))
handle_sse-IsFollowed_example = handle_sse-IsFollowed marshal marshal-OneLine statuses
