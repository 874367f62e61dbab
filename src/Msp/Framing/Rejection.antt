-- ===== src/Msp/Framing/Rejection.antt =====
-- Frames whose checksum is wrong are dropped, and the decoder is ready for the next one.
use mathlib.Core.List.{append-nil}
use logfalcon.Prelude.{
  ℕ, suc, ◌+◌, ◌<◌, ◌≡◌, ◌≢◌, refl, ap, sym, ◌∙◌, Bool, true, false, List, [], ◌∷◌, ◌++◌, arith,
  IsByte, All, All-append, ◌==◌, length, length-append,
}
use logfalcon.Msp.Crc.{crc8_dvbs2}
use logfalcon.Msp.Crc.Detection.{crc8_dvbs2-middle}
use logfalcon.Msp.Framing.{FrameDecoder, finish, reset}
use logfalcon.Msp.Framing.Wire.{Direction, header_v2, wire_v1, wire_v2, check_v1, check_v2, IsReady}
use logfalcon.Msp.Framing.Arrival.{Arrives, arrival_v1, arrival_v2}
use logfalcon.Msp.Framing.RoundTrip.{Delivers, Message, v1, v2, Fits}

finish_wrong :
    (version code : ℕ) (right : Bool) (dir : Direction) (content bytes : List ℕ)
    (d e : FrameDecoder)
    → right ≡ false
    → Arrives version right dir code content d bytes e
    → Delivers d bytes [] (finish version right e)
unfolding finish reset
finish_wrong version code true dir content bytes d e w a = cc
finish_wrong version code false dir content bytes d e w a = record {
  fed = a.fed;
  frames = a.frames ∙ sym (append-nil d.frames);
  ready = record { at_rest = refl; header = a.header };
}

ne→== : (a b : ℕ) → a ≢ b → (a == b) ≡ false
ne→== a b h = ground arith

abbrev pub right_check : Message → ℕ
right_check (v1 dir code content) = check_v1 code content
right_check (v2 dir flag code content) = check_v2 flag code content

abbrev pub with_check : Message → ℕ → List ℕ
with_check (v1 dir code content) check = wire_v1 dir code content check
with_check (v2 dir flag code content) check = wire_v2 dir flag code content check

-- A frame of either protocol whose last byte is not the checksum of its contents delivers nothing,
-- and leaves the decoder between frames.
pub wrong_checksum_dropped :
    (m : Message) (d : FrameDecoder) (check : ℕ)
    → Fits m
    → check ≢ right_check m
    → IsReady d
    → (e : FrameDecoder) × Delivers d (with_check m check) [] e
wrong_checksum_dropped (v1 dir code content) d check f ne h =
    let (e, a) = arrival_v1 d dir code content check h in
    (_, finish_wrong 1 code _ dir content _ d e (ne→== _ _ ne) a)
wrong_checksum_dropped (v2 dir flag code content) d check f ne h =
    let (e, a) = arrival_v2 d dir flag code content check f.0 f.1 h in
    (_, finish_wrong 2 code _ dir content _ d e (ne→== _ _ ne) a)

-- The CRC of a payload with the byte `x` in the middle, its length written out.
middle_check :
    (flag code x : ℕ) (before after : List ℕ)
    → check_v2 flag code (before ++ x ∷ after)
      ≡ crc8_dvbs2
          ((header_v2 flag code (length before + suc (length after)) ++ before) ++ x ∷ after)
          0
middle_check flag code x before after =
    ap (λ k. crc8_dvbs2 (header_v2 flag code k ++ (before ++ x ∷ after)) 0)
      (length-append before (x ∷ after))

header_v2_bytes : (flag code size : ℕ) → IsByte flag → All IsByte (header_v2 flag code size)
header_v2_bytes flag code size h =
    (h, (omega arith, (omega arith, (omega arith, (omega arith, tt)))))

-- A v2 frame in which one byte of the payload was changed on the way delivers nothing, whichever
-- byte it is and whatever it became.
pub changed_byte_dropped :
    (d : FrameDecoder) (dir : Direction) (flag code a b : ℕ) (before after : List ℕ)
    → IsByte flag
    → code < 65536
    → All IsByte before
    → All IsByte after
    → IsByte a
    → IsByte b
    → a ≢ b
    → length before + suc (length after) < 65536
    → IsReady d
    → (e : FrameDecoder) × Delivers d
        (wire_v2 dir flag code (before ++ b ∷ after) (check_v2 flag code (before ++ a ∷ after)))
        []
        e
changed_byte_dropped d dir flag code a b before after hf hc hx hy ha hb ne hl h =
    let size : ℕ = length before + suc (length after) in
    let same : check_v2 flag code (before ++ a ∷ after) ≡ check_v2 flag code (before ++ b ∷ after)
        → ⊥ =
      λ e. ne (
        crc8_dvbs2-middle (header_v2 flag code size ++ before) after 0 a b
          (All-append IsByte (header_v2 flag code size) before (header_v2_bytes flag code size hf)
            hx)
          hy (omega arith) ha hb
          (sym (middle_check flag code a before after)
            ∙ e
            ∙ middle_check flag code b before after)) in
    wrong_checksum_dropped (v2 dir flag code (before ++ b ∷ after)) d _
      (hc, omega (arith, length-append before (b ∷ after))) same h
