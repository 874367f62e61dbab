-- ===== src/Web/Events/Followed.antt =====
-- internal/web/server.go: what a reader of the event stream makes of the body that `handleSSE` writes.
use logfalcon.Prelude.{
  ℕ, ◌≡◌, refl, sym, ap, ◌∙◌, Bool, true, false, Option, none, some, List, [], ◌∷◌, ◌++◌, drop,
  if◌then◌else◌, bytes_eq, bytes_eq_sound, on_if,
}
use mathlib.Core.List.{append_assoc}
use logfalcon.Prelude.Texts.{ascii}
use logfalcon.Sync.Status.{Status}
use logfalcon.Web.Text.{has_prefix, trim_prefix, split}
use logfalcon.Web.Files.Range.{Lacks}
use logfalcon.Web.Hotspot.Newlines.{split_at}
use logfalcon.Web.Events.{event_bytes, send_payload, prev_after, send_changes, handle_sse}

-- A reader as the HTML standard describes it, for lines that end in a line feed: a field `data` goes into
-- the buffer, one space before its value is dropped, an empty line dispatches what is in the buffer, and
-- all else is ignored.
add_data : Option (List ℕ) → List ℕ → List ℕ
add_data none value = value
add_data (some kept) value = kept ++ b'\n' ∷ value

unfoldable dispatch_data : Option (List ℕ) → List (List ℕ) → List (List ℕ)
dispatch_data none events = events
dispatch_data (some kept) events = kept ∷ events

unfoldable pub read_events : Option (List ℕ) → List (List ℕ) → List (List ℕ)
unfolding has_prefix trim_prefix add_data dispatch_data
read_events buffer [] = []
read_events buffer ([] ∷ lines) = dispatch_data buffer (read_events none lines)
read_events buffer ((c ∷ line) ∷ lines) =
    let added =
      read_events (some (add_data buffer (trim_prefix (drop 5 (c ∷ line)) (b' ' ∷ [])))) lines in
    let ignored = read_events buffer lines in
    if has_prefix (c ∷ line) (ascii "data:") then added else ignored

-- The events of a body.
unfoldable pub events_of : List ℕ → List (List ℕ)
unfolding read_events split
events_of body = read_events none (split b'\n' body)

-- The payloads of the ticks, of those that marshal.
unfoldable pub marshalled : (Status → Option (List ℕ)) → List Status → List (List ℕ)
marshalled marshal [] = []
marshalled marshal (status ∷ ticks) = elim (marshal status) [
  | none ↦ marshalled marshal ticks
  | some payload ↦ payload ∷ marshalled marshal ticks
]

-- The last of some texts, behind `prev`.
abbrev pub last_of : List ℕ → List (List ℕ) → List ℕ
last_of prev [] = prev
last_of prev (x ∷ xs) = last_of x xs

-- The texts without those that repeat the one before, the first of them behind `prev`.
unfoldable pub changes : List ℕ → List (List ℕ) → List (List ℕ)
unfolding bytes_eq
changes prev [] = []
changes prev (x ∷ xs) = let rest = changes x xs in if bytes_eq x prev then rest else x ∷ rest

-- A text without a line break, as `json.Marshal` gives it.
abbrev pub OneLine : Option (List ℕ) → Type 0
OneLine none = Unit
OneLine (some payload) = Lacks b'\n' payload

last_of-changes :
    (prev : List ℕ) (xs : List (List ℕ)) → last_of prev (changes prev xs) ≡ last_of prev xs
unfolding changes
last_of-changes prev [] = refl
last_of-changes prev (x ∷ xs) =
    on_if (λ r. last_of prev r ≡ last_of x xs) (bytes_eq x prev) (changes x xs) (x ∷ changes x xs)
      (λ e.
        ap (λ p. last_of p (changes x xs)) (sym (bytes_eq_sound x prev e)) ∙ last_of-changes x xs)
      (λ _. last_of-changes x xs)

-- One event in front of others.
events_of-event :
    (payload rest : List ℕ)
    → Lacks b'\n' payload
    → events_of (event_bytes payload ++ rest) ≡ payload ∷ events_of rest
unfolding events_of read_events add_data dispatch_data has_prefix trim_prefix split
events_of-event payload rest h =
    let line = ascii "data: " ++ payload in
    let lacks : Lacks b'\n' line = (refl, (refl, (refl, (refl, (refl, (refl, h)))))) in
    let joined : event_bytes payload ++ rest ≡ line ++ b'\n' ∷ b'\n' ∷ rest =
      ap (λ t. ascii "data: " ++ t) (append_assoc payload (b'\n' ∷ b'\n' ∷ []) rest) in
    ap events_of joined ∙ ap (read_events none) (split_at b'\n' line (b'\n' ∷ rest) lacks) ∙ refl

module _ (marshal : Status → Option (List ℕ)) (lines : (s : Status) → OneLine (marshal s)) where
  -- One tick, with what the ticks after it send.
  send_payload-read :
      (prev : List ℕ) (p : Option (List ℕ)) (sent rest : List ℕ) (later : List (List ℕ))
      → OneLine p
      → events_of sent ≡ changes (prev_after prev p) later
      → events_of rest ≡ changes prev later
      → events_of (send_payload prev p sent rest)
        ≡ changes prev (elim p [ none ↦ later | some payload ↦ payload ∷ later ])
  unfolding send_payload prev_after changes
  send_payload-read prev none sent rest later h e f = f
  send_payload-read prev (some payload) sent rest later h e f =
      tick (bytes_eq payload prev) (bytes_eq_sound payload prev)
    where
      tick :
          (same : Bool)
          → (same ≡ true → payload ≡ prev)
          → events_of (if same then rest else event_bytes payload ++ sent)
            ≡ (if same then changes payload later else payload ∷ changes payload later)
      tick true g = f ∙ ap (λ x. changes x later) (sym (g refl))
      tick false g = events_of-event payload sent h ∙ ap (◌∷◌ payload) e

  send_changes-read :
      (prev : List ℕ) (ticks : List Status)
      → events_of (send_changes marshal prev ticks) ≡ changes prev (marshalled marshal ticks)
  unfolding send_changes marshalled
  send_changes-read prev [] = unfold events_of read_events split changes in refl
  send_changes-read prev (s ∷ ticks) =
      send_payload-read prev (marshal s) _ _ (marshalled marshal ticks) (lines s)
        (send_changes-read (prev_after prev (marshal s)) ticks) (send_changes-read prev ticks)

  -- Where no payload has a line break, a reader of the events gets every payload that differs from
  -- the one before, in their order and no other, so the last event it has is the last status that
  -- marshalled, whenever the request ends.
  pub handle_sse-IsFollowed :
      (ticks : List Status)
      → (events_of (handle_sse marshal true ticks).body ≡ changes [] (marshalled marshal ticks))
        × (last_of [] (events_of (handle_sse marshal true ticks).body)
            ≡ last_of [] (marshalled marshal ticks))
  unfolding handle_sse
  handle_sse-IsFollowed ticks =
      let read = send_changes-read [] ticks in
      (read, ap (last_of []) read ∙ last_of-changes [] (marshalled marshal ticks))
