-- ===== src/Msp/Framing/Payload.antt =====
-- Reading a payload, for both protocols: the slice ends up holding the bytes that were fed, whatever
-- an earlier frame left in the buffer.
use mathlib.Core.List.{append_assoc}
use native.Mathlib.Numerals.{add-one}
use logfalcon.Prelude.{
  ℕ, suc, ◌+◌, ◌≤◌, ◌<◌, ◌≡◌, refl, ap, ◌∙◌, some, List, [], ◌∷◌, ◌++◌, arith, length, length-set,
  ==_iff, take, take-set, set,
}
use logfalcon.Msp.Framing.{
  State, FrameDecoder, payload, process, feed, grow, begin_payload, end_payload,
}
use logfalcon.Msp.Framing.Steps.{grow_fits, resume, feed-nil, feed-cons}

-- What reading a payload leaves alone.
pub record SameRest (d e : FrameDecoder) : Type 0 where
  pub frames : e.frames ≡ d.frames
  pub direction : e.direction ≡ d.direction
  pub code : e.code ≡ d.code
  pub v2_header : e.v2_header ≡ d.v2_header
  pub v2_header_len : e.v2_header_len ≡ d.v2_header_len

module _ (tick : ℕ → ℕ → ℕ) where
  unfoldable pub ticks : ℕ → List ℕ → ℕ
  ticks c [] = c
  ticks c (b ∷ bytes) = ticks (tick c b) bytes

  abbrev pub stored : FrameDecoder → ℕ → FrameDecoder
  stored d b = record d {
    payload_buf = set d.payload_buf d.payload_idx b;
    payload_idx = d.payload_idx + 1;
    checksum = tick d.checksum b;
  }

-- The two ways that `begin_payload` goes on.
abbrev started : State → FrameDecoder → FrameDecoder
started reading d = record d {
  payload_buf = grow d.payload_buf d.size;
  payload_len = d.size;
  payload_idx = 0;
  state = reading;
}

begin_payload-zero :
    (reading done : State) (d : FrameDecoder)
    → d.size ≡ 0
    → begin_payload reading done d ≡ record d { state = done }
unfolding begin_payload
begin_payload-zero reading done d h = rw ((==_iff d.size 0).1 h)

begin_payload-pos :
    (reading done : State) (d : FrameDecoder)
    → 0 < d.size
    → begin_payload reading done d ≡ started reading d
unfolding begin_payload
begin_payload-pos reading done d h = ground arith

-- A protocol by its two states and what it does with the running checksum.
module _ (reading done : State) (tick : ℕ → ℕ → ℕ)
    (one : (d : FrameDecoder) (b : ℕ)
      → d.state ≡ reading
      → d.payload_idx < d.payload_len
      → process d b ≡ some (end_payload done (stored tick d b))) where
  record Filled (bytes : List ℕ) (d : FrameDecoder) (e : FrameDecoder) : Type 0 where
    pub fed : feed d bytes ≡ some e
    pub state : e.state ≡ done
    pub content : payload e ≡ take d.payload_idx d.payload_buf ++ bytes
    pub checksum : e.checksum ≡ ticks tick d.checksum bytes
    pub same : SameRest d e

  -- The step that stores the last byte, and the one that stores an earlier byte.
  fill_last :
      (b : ℕ) (d : FrameDecoder)
      → d.state ≡ reading
      → d.payload_len ≡ d.size
      → d.payload_idx + 1 ≡ d.size
      → process d b ≡ some (record (stored tick d b) { state = done })
  unfolding end_payload
  fill_last b d s n l = one d b s (omega arith) ∙ rw ((==_iff (d.payload_idx + 1) d.size).1 l)

  fill_more :
      (b : ℕ) (d : FrameDecoder)
      → d.state ≡ reading
      → d.payload_len ≡ d.size
      → d.payload_idx + 1 < d.size
      → process d b ≡ some (stored tick d b)
  unfolding end_payload
  fill_more b d s n l = one d b s (omega arith) ∙ ground arith

  stored_content :
      (b : ℕ) (d : FrameDecoder)
      → d.payload_idx < length d.payload_buf
      → take (d.payload_idx + 1) (set d.payload_buf d.payload_idx b)
        ≡ take d.payload_idx d.payload_buf ++ b ∷ []
  stored_content b d h = rw add-one (take-set d.payload_idx d.payload_buf b h)

  fill :
      (bytes : List ℕ) (b : ℕ) (d : FrameDecoder)
      → d.state ≡ reading
      → d.payload_len ≡ d.size
      → d.payload_len ≤ length d.payload_buf
      → d.payload_idx + suc (length bytes) ≡ d.size
      → (e : FrameDecoder) × Filled (b ∷ bytes) d e
  unfolding resume ticks
  fill [] b d s n f l = (
    record (stored tick d b) { state = done },
    record {
      fed = feed-cons d b [] ∙ simp (fill_last b d s n (omega arith), resume, feed-nil);
      state = refl;
      content =
          ap (λ k. take k (set d.payload_buf d.payload_idx b)) (omega arith)
          ∙ stored_content b d (omega arith);
      checksum = refl;
      same = ground arith;
    },
  )
  fill (c ∷ bytes) b d s n f l =
      let d' : FrameDecoder = stored tick d b in
      let (e, h) =
        fill bytes c d' s n (omega (arith, length-set d.payload_buf d.payload_idx b))
          (omega arith) in
      (
        e,
        record {
          fed = feed-cons d b (c ∷ bytes) ∙ simp (fill_more b d s n (omega arith), resume) h.fed;
          state = h.state;
          content =
              h.content
              ∙ ap (λ t. t ++ c ∷ bytes) (stored_content b d (omega arith))
              ∙ append_assoc (take d.payload_idx d.payload_buf) (b ∷ []) (c ∷ bytes);
          checksum = h.checksum;
          same = ground (arith, h.same);
        },
      )

  -- From a decoder that has just read the size, with no payload yet.
  pub record Received (bytes : List ℕ) (d : FrameDecoder) (e : FrameDecoder) : Type 0 where
    pub fed : feed (begin_payload reading done d) bytes ≡ some e
    pub state : e.state ≡ done
    pub content : payload e ≡ bytes
    pub checksum : e.checksum ≡ ticks tick d.checksum bytes
    pub same : SameRest d e

  pub receive :
      (bytes : List ℕ) (d : FrameDecoder)
      → d.payload_len ≡ 0
      → d.size ≡ length bytes
      → (e : FrameDecoder) × Received bytes d e
  unfolding resume ticks
  receive [] d z l = (
    record d { state = done },
    record {
      fed = rw (begin_payload-zero reading done d l) (feed-nil _);
      state = refl;
      content = rw z;
      checksum = refl;
      same = ground arith;
    },
  )
  receive (b ∷ bytes) d z l =
      let d' : FrameDecoder = started reading d in
      let (e, h) = fill bytes b d' refl refl (grow_fits d.payload_buf d.size) (omega arith) in
      (
        e,
        record {
          fed = rw (begin_payload-pos reading done d (omega arith)) h.fed;
          state = h.state;
          content = h.content;
          checksum = h.checksum;
          same = ground (arith, h.same);
        },
      )
