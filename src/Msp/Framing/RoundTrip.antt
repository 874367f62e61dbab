-- ===== src/Msp/Framing/RoundTrip.antt =====
-- What is encoded is what is decoded, frame after frame and in any chunks.
use logfalcon.Prelude.{
  ℕ, ◌<◌, ◌≡◌, refl, ap, sym, ◌∙◌, true, Option, none, some, List, [], ◌∷◌, ◌++◌, arith, ==_refl,
  length, All, map,
}
use mathlib.Core.List.{append-nil, append_assoc, flatten}
use logfalcon.Msp.Framing.{
  Frame, FrameDecoder, payload, new_frame_decoder, feed, reset, finish, encode_v1, encode_v2,
}
use logfalcon.Msp.Framing.Steps.{resume, feed-nil, feed-append}
use logfalcon.Msp.Framing.Wire.{
  Direction, to_fc, direction_byte, wire_v1, wire_v2, check_v1, check_v2, IsReady,
  encode_v1-wire_v1, encode_v2-wire_v2,
}
use logfalcon.Msp.Framing.Arrival.{Arrives, arrival_v1, arrival_v2}

-- The frame that a message is.
abbrev pub frame_of : ℕ → Direction → ℕ → List ℕ → Frame
frame_of version dir code content = record {
  version = version;
  direction = direction_byte dir;
  code = code;
  payload = content;
}

-- After `bytes` the decoder is between frames again, and has delivered `delivered` on top.
pub record Delivers (d : FrameDecoder) (bytes : List ℕ) (delivered : List Frame) (e : FrameDecoder)
    : Type 0 where
  pub fed : feed d bytes ≡ some e
  pub frames : e.frames ≡ d.frames ++ delivered
  pub ready : IsReady e

finish_right :
    (version code : ℕ) (dir : Direction) (content bytes : List ℕ) (d e : FrameDecoder)
    → Arrives version true dir code content d bytes e
    → Delivers d bytes (frame_of version dir code content ∷ []) (finish version true e)
unfolding finish
finish_right version code dir content bytes d e a = record {
  fed = a.fed;
  frames = simp (a.frames, a.direction, a.code_read, a.content_read);
  ready = record { at_rest = refl; header = a.header };
}

-- A message of either protocol.
pub data Message : Type 0 where
  v1 : Direction → ℕ → List ℕ → Message
  v2 : Direction → ℕ → ℕ → List ℕ → Message

abbrev pub Fits : Message → Type 0
Fits (v1 dir code content) = length content < 256
Fits (v2 dir flag code content) = (code < 65536) × (length content < 65536)

abbrev pub message_bytes : Message → List ℕ
message_bytes (v1 dir code content) = wire_v1 dir code content (check_v1 code content)
message_bytes (v2 dir flag code content) =
    wire_v2 dir flag code content (check_v2 flag code content)

abbrev pub message_frame : Message → Frame
message_frame (v1 dir code content) = frame_of 1 dir code content
message_frame (v2 dir flag code content) = frame_of 2 dir code content

pub deliver_one :
    (m : Message) (d : FrameDecoder)
    → Fits m
    → IsReady d
    → (e : FrameDecoder) × Delivers d (message_bytes m) (message_frame m ∷ []) e
deliver_one (v1 dir code content) d f h =
    let check = check_v1 code content in
    let (e, a) = arrival_v1 d dir code content check h in
    (finish 1 true e, finish_right 1 code dir content _ d e (rw (==_refl check) at a))
deliver_one (v2 dir flag code content) d f h =
    let check = check_v2 flag code content in
    let (e, a) = arrival_v2 d dir flag code content check f.0 f.1 h in
    (finish 2 true e, finish_right 2 code dir content _ d e (rw (==_refl check) at a))

-- A v1 request whose payload fits the length byte: a decoder between frames delivers exactly the
-- frame that was encoded, in the direction of the controller, and is between frames again.
pub decode-encode_v1 :
    (d : FrameDecoder) (code : ℕ) (payload : List ℕ)
    → length payload < 256
    → IsReady d
    → (e : FrameDecoder) × Delivers d
        (encode_v1 code payload)
        (frame_of 1 to_fc code payload ∷ [])
        e
decode-encode_v1 d code payload l h =
    rw (encode_v1-wire_v1 code payload l) (deliver_one (v1 to_fc code payload) d l h)

-- A v2 request whose code and length are 16-bit numbers: a decoder between frames delivers exactly
-- the frame that was encoded, in the direction of the controller, and is between frames again.
pub decode-encode_v2 :
    (d : FrameDecoder) (code : ℕ) (payload : List ℕ)
    → code < 65536
    → length payload < 65536
    → IsReady d
    → (e : FrameDecoder) × Delivers d
        (encode_v2 code payload)
        (frame_of 2 to_fc code payload ∷ [])
        e
decode-encode_v2 d code payload c l h =
    rw (encode_v2-wire_v2 code payload) (deliver_one (v2 to_fc 0 code payload) d (c, l) h)

unfoldable pub stream : List Message → List ℕ
stream [] = []
stream (m ∷ ms) = message_bytes m ++ stream ms

pub deliver_stream :
    (ms : List Message) (d : FrameDecoder)
    → All Fits ms
    → IsReady d
    → (e : FrameDecoder) × Delivers d (stream ms) (map message_frame ms) e
unfolding stream resume
deliver_stream [] d f h =
    (d, record { fed = feed-nil d; frames = sym (append-nil d.frames); ready = h })
deliver_stream (m ∷ ms) d f h =
    let (e, a) = deliver_one m d f.0 h in
    let (g, b) = deliver_stream ms e f.1 a.ready in
    (
      g,
      record {
        fed = feed-append d (message_bytes m) (stream ms) ∙ rw a.fed b.fed;
        frames =
            b.frames
            ∙ ap (λ t. t ++ map message_frame ms) a.frames
            ∙ append_assoc d.frames (message_frame m ∷ []) (map message_frame ms);
        ready = b.ready;
      },
    )

-- `Feed` called once for each chunk that a read returned.
unfoldable pub feed_chunks : FrameDecoder → List (List ℕ) → Option FrameDecoder
feed_chunks d [] = some d
feed_chunks d (c ∷ chunks) = elim (feed d c) [ none ↦ none | some e ↦ feed_chunks e chunks ]

resume_chunks : Option FrameDecoder → List (List ℕ) → Option FrameDecoder
resume_chunks none chunks = none
resume_chunks (some d) chunks = feed_chunks d chunks

feed_chunks-cons :
    (d : FrameDecoder) (c : List ℕ) (chunks : List (List ℕ))
    → feed_chunks d (c ∷ chunks) ≡ resume_chunks (feed d c) chunks
unfolding feed_chunks resume_chunks
feed_chunks-cons d c chunks = ground arith

feed_chunks-flatten :
    (d : FrameDecoder) (chunks : List (List ℕ)) → feed_chunks d chunks ≡ feed d (flatten chunks)
unfolding flatten
feed_chunks-flatten d [] = rw feed-nil (unfold feed_chunks in refl)
feed_chunks-flatten d (c ∷ chunks) =
    feed_chunks-cons d c chunks
    ∙ resumed (feed d c) (λ e. feed_chunks-flatten e chunks)
    ∙ sym (feed-append d c (flatten chunks))
  where
    resumed :
        (o : Option FrameDecoder)
        → ((e : FrameDecoder) → feed_chunks e chunks ≡ feed e (flatten chunks))
        → resume_chunks o chunks ≡ resume o (flatten chunks)
    resumed none h = unfold resume_chunks resume in refl
    resumed (some e) h = unfold resume_chunks resume in h e

-- Messages that fit their length fields, one after another and cut into chunks at any places, are
-- delivered whole, in order and with nothing else, and leave the decoder between frames.
pub deliver_chunks :
    (ms : List Message) (chunks : List (List ℕ)) (d : FrameDecoder)
    → All Fits ms
    → flatten chunks ≡ stream ms
    → IsReady d
    → (e : FrameDecoder) × (feed_chunks d chunks ≡ some e)
      × (e.frames ≡ d.frames ++ map message_frame ms)
      × IsReady e
deliver_chunks ms chunks d f c h =
    let (e, a) = deliver_stream ms d f h in
    (e, feed_chunks-flatten d chunks ∙ ap (feed d) c ∙ a.fed, a.frames, a.ready)

pub new_frame_decoder-IsReady : IsReady new_frame_decoder
unfolding new_frame_decoder reset
new_frame_decoder-IsReady = record { at_rest = refl; header = refl }
