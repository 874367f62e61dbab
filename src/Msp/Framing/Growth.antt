-- ===== src/Msp/Framing/Growth.antt =====
-- The decoder only adds frames behind those that it holds.
use logfalcon.Prelude.{
  ℕ, ◌≡◌, refl, sym, ap, ◌∙◌, Bool, true, false, Option, none, some, List, [], ◌∷◌, ◌++◌, ◌==◌, ltb,
  on_if, bit_xor, bit_or, ◌*◌,
}
use mathlib.Core.List.{append_assoc, append-nil}
use logfalcon.Msp.Framing.{
  Frame, FrameDecoder, State, idle, proto_v1_m, direction, v1_len, v1_code, v1_payload, v1_checksum,
  v2_flag, v2_code_lo, v2_code_hi, v2_len_lo, v2_len_hi, v2_payload, v2_checksum, begin_payload,
  put_payload, put_header, end_payload, finish, is_direction, and_then, reset, dispatch, process,
  feed,
}
use logfalcon.Msp.Framing.Steps.{resume, feed-nil, feed-cons}

abbrev pub IsGrown : List Frame → FrameDecoder → Type 0
IsGrown frames d = (more : List Frame) × (d.frames ≡ frames ++ more)

-- `P` of the decoder, where there is no panic.
abbrev pub Whenever : (FrameDecoder → Type 0) → Option FrameDecoder → Type 0
Whenever P none = Unit
Whenever P (some d) = P d

module _ (d : FrameDecoder) where
  kept : IsGrown d.frames d
  kept = ([], sym (append-nil d.frames))

  finish-IsGrown : (version : ℕ) (right : Bool) → IsGrown d.frames (finish version right d)
  unfolding finish reset
  finish-IsGrown version true = (_, refl)
  finish-IsGrown version false = kept

  payload-IsGrown :
      (b : ℕ) (f : FrameDecoder → FrameDecoder)
      → ((e : FrameDecoder) → IsGrown d.frames e → IsGrown d.frames (f e))
      → Whenever (IsGrown d.frames) (and_then (put_payload d b) f)
  unfolding and_then put_payload
  payload-IsGrown b f h =
      on_if (λ o. Whenever (IsGrown d.frames) (and_then o f)) (ltb d.payload_idx d.payload_len) _ _
        (λ _. h _ kept) (λ _. tt)

  end_payload-IsGrown :
      (done : State) (e : FrameDecoder) → IsGrown d.frames e → IsGrown d.frames (end_payload done e)
  unfolding end_payload
  end_payload-IsGrown done e h =
      on_if (IsGrown d.frames) (e.payload_idx == e.size) _ _ (λ _. h) (λ _. h)

  begin_payload-IsGrown :
      (reading done : State) (e : FrameDecoder)
      → IsGrown d.frames e
      → IsGrown d.frames (begin_payload reading done e)
  unfolding begin_payload
  begin_payload-IsGrown reading done e h =
      on_if (IsGrown d.frames) (e.size == 0) _ _ (λ _. h) (λ _. h)

  dispatch-IsGrown : (s : State) (b : ℕ) → Whenever (IsGrown d.frames) (dispatch s d b)
  unfolding dispatch reset put_header
  dispatch-IsGrown idle b = on_if (IsGrown d.frames) (b == b'$') _ _ (λ _. kept) (λ _. kept)
  dispatch-IsGrown proto_v1_m b =
      on_if (IsGrown d.frames) (b == b'M') _ _ (λ _. kept)
        (λ _. on_if (IsGrown d.frames) (b == b'X') _ _ (λ _. kept) (λ _. kept))
  dispatch-IsGrown direction b =
      on_if (IsGrown d.frames) (is_direction b) _ _ (λ _. kept) (λ _. kept)
  dispatch-IsGrown v1_len b = kept
  dispatch-IsGrown v1_code b =
      begin_payload-IsGrown v1_payload v1_checksum
        (record d { code = b; checksum = bit_xor d.checksum b }) kept
  dispatch-IsGrown v1_payload b =
      payload-IsGrown b _
        (λ e h. end_payload-IsGrown v1_checksum (record e { checksum = bit_xor e.checksum b }) h)
  dispatch-IsGrown v1_checksum b = finish-IsGrown 1 _
  dispatch-IsGrown v2_flag b = kept
  dispatch-IsGrown v2_code_lo b = kept
  dispatch-IsGrown v2_code_hi b = kept
  dispatch-IsGrown v2_len_lo b = kept
  dispatch-IsGrown v2_len_hi b =
      begin_payload-IsGrown v2_payload v2_checksum
        (record (put_header d 4 b) { size = bit_or d.size (b * 256) }) kept
  dispatch-IsGrown v2_payload b = payload-IsGrown b _ (λ e h. end_payload-IsGrown _ e h)
  dispatch-IsGrown v2_checksum b = finish-IsGrown 2 _

  process-IsGrown : (b : ℕ) → Whenever (IsGrown d.frames) (process d b)
  unfolding process
  process-IsGrown b = dispatch-IsGrown d.state b

IsGrown-more :
    (frames : List Frame) (d e : FrameDecoder)
    → IsGrown frames d
    → IsGrown d.frames e
    → IsGrown frames e
IsGrown-more frames d e (more, h) (more', k) =
    (more ++ more', k ∙ ap (λ x. x ++ more') h ∙ append_assoc frames more more')

resume-IsGrown :
    (frames : List Frame) (o : Option FrameDecoder) (bytes : List ℕ)
    → Whenever (IsGrown frames) o
    → ((d : FrameDecoder) → Whenever (IsGrown d.frames) (feed d bytes))
    → Whenever (IsGrown frames) (resume o bytes)
unfolding resume
resume-IsGrown frames none bytes h k = tt
resume-IsGrown frames (some d) bytes h k = go (feed d bytes) (k d)
  where
    go : (o : Option FrameDecoder) → Whenever (IsGrown d.frames) o → Whenever (IsGrown frames) o
    go none l = tt
    go (some e) l = IsGrown-more frames d e h l

pub feed-IsGrown : (bytes : List ℕ) (d : FrameDecoder) → Whenever (IsGrown d.frames) (feed d bytes)
feed-IsGrown [] d = rw feed-nil (kept d)
feed-IsGrown (b ∷ bytes) d =
    rw feed-cons
      (resume-IsGrown d.frames (process d b) bytes (process-IsGrown d b) (feed-IsGrown bytes))
