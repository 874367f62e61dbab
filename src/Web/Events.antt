-- ===== src/Web/Events.antt =====
-- internal/web/server.go: `handleSSE`, the events from which the dashboard follows a sync.
pub mod Followed
use Prim.Native.String.{String}
use logfalcon.Prelude.{
  ℕ, Bool, true, false, Option, none, some, List, [], ◌∷◌, ◌++◌, if◌then◌else◌, bytes_eq,
}
use logfalcon.Prelude.Texts.{ascii}
use logfalcon.Sync.Status.{Status}

-- A response whose body is written piece by piece, each flushed; an error of a write is not looked at.
pub record SseResponse : Type 0 where
  pub status : ℕ
  pub headers : List (String × String)
  pub body : List ℕ

-- `fmt.Fprintf(w, "data: %s\n\n", payload)`
abbrev pub event_bytes : List ℕ → List ℕ
event_bytes payload = ascii "data: " ++ payload ++ b'\n' ∷ b'\n' ∷ []

-- What `http.Error` answers where the connection cannot be flushed.
abbrev no_flusher : SseResponse
no_flusher = record {
  status = 500;
  headers =
      ("Content-Type", "text/plain; charset=utf-8") ∷ ("X-Content-Type-Options", "nosniff") ∷ [];
  body = ascii "streaming not supported" ++ b'\n' ∷ [];
}

abbrev sse_headers : List (String × String)
sse_headers =
    ("Content-Type", "text/event-stream")
    ∷ ("Cache-Control", "no-cache")
    ∷ ("Connection", "keep-alive")
    ∷ ("X-Accel-Buffering", "no")
    ∷ []

-- A tick on which the status marshals to a payload, or to an error: `sent` is what the later ticks send
-- after this payload, `rest` what they send after `prev`.
unfoldable pub send_payload : (prev : List ℕ) → Option (List ℕ) → (sent rest : List ℕ) → List ℕ
unfolding bytes_eq
send_payload prev none sent rest = rest
send_payload prev (some payload) sent rest =
    if bytes_eq payload prev then rest else event_bytes payload ++ sent

-- `prev` after a tick.
unfoldable pub prev_after : (prev : List ℕ) → Option (List ℕ) → List ℕ
prev_after prev none = prev
prev_after prev (some payload) = payload

-- `marshal` is `json.Marshal`, where `none` is an error.
module _ (marshal : Status → Option (List ℕ)) where
  -- The loop, over what `GetStatus` returns on each tick before the request is over.
  unfoldable pub send_changes : (prev : List ℕ) → List Status → List ℕ
  unfolding send_payload prev_after
  send_changes prev [] = []
  send_changes prev (status ∷ ticks) =
      let payload = marshal status in
      send_payload prev payload (send_changes (prev_after prev payload) ticks)
        (send_changes prev ticks)

  -- `handleSSE`; `can_flush` is that the connection is a `Flusher`.
  unfoldable pub handle_sse : (can_flush : Bool) → List Status → SseResponse
  unfolding send_changes
  handle_sse false ticks = no_flusher
  handle_sse true ticks = record {
    status = 200;
    headers = sse_headers;
    body = send_changes [] ticks;
  }
