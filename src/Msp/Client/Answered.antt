-- ===== src/Msp/Client/Answered.antt =====
-- A reply that arrives in time is what a request returns, in whatever pieces it arrives.
use logfalcon.Prelude.{
  ℕ, zero, suc, ◌≤◌, ◌≡◌, refl, sym, ap, ◌∙◌, Bool, true, false, none, some, List, [], ◌∷◌, ◌++◌,
  map, arith, length, ◌==◌, ==_iff, ==_refl, if◌then◌else◌, Option-cases, inl, inr,
}
use mathlib.Core.Path.{subst}
use mathlib.Core.List.{flatten}
use logfalcon.Exec.{ok, err, continue}
use logfalcon.Msp.Framing.{Frame, FrameDecoder, feed, encode_v1}
use logfalcon.Msp.Framing.Steps.{resume, feed-nil, feed-append}
use logfalcon.Msp.Framing.Growth.{IsGrown, Whenever, feed-IsGrown}
use logfalcon.Msp.Framing.Wire.{IsReady}
use logfalcon.Msp.Framing.RoundTrip.{
  Message, Fits, message_bytes, message_frame, deliver_one, Delivers,
}
use logfalcon.Msp.Port.{Port, Read, read, read_eof, next_read, next_rounds, write}
use logfalcon.Msp.PendingFrames.{Pending, find, delete, put, find-delete, find-put}
use logfalcon.Msp.Client.{
  Client, M, drain, take_in, handle_read, poll, claim, receive_loop, wait_for, receive,
  flush_frames, send, write_frame, write_failed, request,
}
use logfalcon.Msp.Constants.{from_fc_byte}

next_read-cons :
    (p : Port) (r : Read) (rest : List Read)
    → p.reads ≡ r ∷ rest
    → next_read p ≡ (r, record p { reads = rest })
unfolding next_read
next_read-cons p r rest e = rw (next_read, e) refl

-- A piece of a reply: its bytes, and whether the port reports `io.EOF` with them, as a serial port does
-- when its own timeout is over.
abbrev pub Piece : Type 0
Piece = Bool × List ℕ

abbrev pub piece_read : Piece → Read
piece_read (false, bytes) = read bytes
piece_read (true, bytes) = read_eof bytes

abbrev pub piece_bytes : Piece → List ℕ
piece_bytes (eof, bytes) = bytes

poll-read :
    (c : Client) (piece : Piece) (rest : List Read)
    → c.port.reads ≡ piece_read piece ∷ rest
    → poll c ≡ take_in (piece_bytes piece) (record c { port = record (c.port) { reads = rest } })
unfolding poll handle_read
poll-read c (false, chunk) rest e =
    ap (λ r. handle_read r c) (next_read-cons c.port (read chunk) rest e)
poll-read c (true, chunk) rest e =
    ap (λ r. handle_read r c) (next_read-cons c.port (read_eof chunk) rest e)

take_in-some :
    (chunk : List ℕ) (c : Client) (d : FrameDecoder)
    → feed c.decoder chunk ≡ some d
    → take_in chunk c
      ≡ (ok tt, record c { decoder = record d { frames = [] }; pending = drain d.frames c.pending })
unfolding take_in
take_in-some chunk c d e = rw (take_in, e) refl

claim-some :
    (code : ℕ) (otherwise : M Frame) (c : Client) (f : Frame)
    → find code c.pending ≡ some f
    → (claim code otherwise c).0 ≡ ok f
unfolding claim
claim-some code otherwise c f e = rw (claim, e) refl

claim-none :
    (code : ℕ) (otherwise : M Frame) (c : Client)
    → find code c.pending ≡ none
    → claim code otherwise c ≡ otherwise c
unfolding claim
claim-none code otherwise c e = rw (claim, e) refl

-- What the loop needs: nothing is waiting, and the chunks to come complete exactly the frame `f`.
record Awaits (code : ℕ) (f : Frame) (chunks : List Piece) (rest : List Read) (c : Client)
    : Type 0 where
  unclaimed : find code c.pending ≡ none
  reads : c.port.reads ≡ map piece_read chunks ++ rest
  quiet : c.decoder.frames ≡ []
  last : FrameDecoder
  fed : feed c.decoder (flatten (map piece_bytes chunks)) ≡ some last
  complete : last.frames ≡ f ∷ []

drained :
    (f g : Frame) (gs more : List Frame) (p : Pending)
    → f.direction ≡ from_fc_byte
    → g ∷ (gs ++ more) ≡ f ∷ []
    → find f.code (drain (g ∷ gs) p) ≡ some f
unfolding drain
drained f g [] more p dir e =
    let same : g ≡ f = cc e in
    let from_fc : (g.direction == from_fc_byte) ≡ true =
      ap (λ (x : Frame). x.direction == from_fc_byte) same ∙ (==_iff _ _).1 dir in
    ap (λ b. find f.code (if b then put g.code g p else p)) from_fc
    ∙ ap (λ (x : Frame). find f.code (put x.code x p)) same
    ∙ find-put f.code f.code f p
    ∙ ap (λ b. if b then some f else find f.code p) (==_refl f.code)
drained f g (x ∷ gs) more p dir e = cc e

-- One pass of the loop, which took the chunk and left the decoder as `d`.
after_pass :
    (f : Frame) (chunk : Piece) (chunks : List Piece) (rest : List Read) (n : ℕ) (c : Client)
    (d : FrameDecoder)
    → f.direction ≡ from_fc_byte
    → Awaits f.code f (chunk ∷ chunks) rest c
    → feed c.decoder (piece_bytes chunk) ≡ some d
    → ((e : Client) → Awaits f.code f chunks rest e → (receive_loop n f.code e).0 ≡ ok f)
    → (receive_loop (suc n) f.code c).0 ≡ ok f
unfolding receive_loop flatten resume drain
after_pass f chunk chunks rest n c d dir a e ih =
    ap (λ r. (continue r (λ _. claim f.code (receive_loop n f.code))).0) polled
    ∙ go d.frames refl (grown (feed-IsGrown (flatten (map piece_bytes chunks)) d))
  where
    waiting : Client
    waiting = record c { port = record (c.port) { reads = map piece_read chunks ++ rest } }

    next : Client
    next = record waiting { decoder = record d { frames = [] }; pending = drain d.frames c.pending }

    polled : poll c ≡ (ok tt, next)
    polled = poll-read c chunk _ a.reads ∙ take_in-some (piece_bytes chunk) waiting d e

    fed : feed d (flatten (map piece_bytes chunks)) ≡ some a.last
    fed =
        sym (ap (λ o. resume o (flatten (map piece_bytes chunks))) e)
        ∙ sym (feed-append c.decoder (piece_bytes chunk) (flatten (map piece_bytes chunks)))
        ∙ a.fed

    grown :
        Whenever (IsGrown d.frames) (feed d (flatten (map piece_bytes chunks)))
        → IsGrown d.frames a.last
    grown g = subst (Whenever (IsGrown d.frames)) fed g

    go :
        (frames : List Frame)
        → d.frames ≡ frames
        → IsGrown d.frames a.last
        → (claim f.code (receive_loop n f.code) next).0 ≡ ok f
    go [] none_yet g =
        let unclaimed : find f.code next.pending ≡ none =
          ap (λ fs. find f.code (drain fs c.pending)) none_yet ∙ a.unclaimed in
        ap (λ r. r.0) (claim-none f.code (receive_loop n f.code) next unclaimed)
        ∙ ih next (record {
          unclaimed = unclaimed;
          reads = refl;
          quiet = refl;
          last = a.last;
          fed =
              ap (λ fs. feed (record d { frames = fs }) (flatten (map piece_bytes chunks)))
                (sym none_yet)
              ∙ fed;
          complete = a.complete;
        })
    go (x ∷ xs) arrived (more, g) = claim-some f.code (receive_loop n f.code) next f (
        ap (λ fs. find f.code (drain fs c.pending)) arrived
        ∙ drained f x xs more c.pending dir
            (ap (λ fs. fs ++ more) (sym arrived) ∙ sym g ∙ a.complete))

receive_loop-Awaits :
    (f : Frame) (chunks : List Piece) (rest : List Read) (n : ℕ) (c : Client)
    → f.direction ≡ from_fc_byte
    → length chunks ≤ n
    → Awaits f.code f chunks rest c
    → (receive_loop n f.code c).0 ≡ ok f
unfolding flatten resume
receive_loop-Awaits f [] rest n c dir h a =
    let same : some c.decoder ≡ some a.last = sym (feed-nil c.decoder) ∙ a.fed in
    let last : c.decoder ≡ a.last = cc same in
    absurd (cc (sym a.quiet ∙ ap (λ (d : FrameDecoder). d.frames) last ∙ a.complete))
receive_loop-Awaits f (chunk ∷ chunks) rest zero c dir h a = absurd (omega arith)
receive_loop-Awaits f (chunk ∷ chunks) rest (suc n) c dir h a =
    elim (Option-cases (feed c.decoder (piece_bytes chunk))) [
      | inl e ↦
          let lost : some a.last ≡ none =
            sym a.fed
            ∙ feed-append c.decoder (piece_bytes chunk) (flatten (map piece_bytes chunks))
            ∙ ap (λ o. resume o (flatten (map piece_bytes chunks))) e in
          absurd (cc lost)
      | inr (d, e) ↦
          after_pass f chunk chunks rest n c d dir a e
            (λ c' a'. receive_loop-Awaits f chunks rest n c' dir (omega arith) a')
    ]

write-success :
    (bytes : List ℕ) (p : Port) (writes : List Bool)
    → p.writes ≡ true ∷ writes
    → write bytes p ≡ (true, record p { sent = p.sent ++ bytes ∷ []; writes = writes })
unfolding write
write-success bytes p writes e = rw (write, e) refl

next_rounds-cons :
    (p : Port) (n : ℕ) (rounds : List ℕ)
    → p.rounds ≡ n ∷ rounds
    → next_rounds p ≡ (n, record p { rounds = rounds })
unfolding next_rounds
next_rounds-cons p n rounds e = rw (next_rounds, e) refl

-- `Request`, with the decoder between frames and drained: where the write succeeds and what the port
-- reads next is the response to the command, in any pieces, each with or without `io.EOF`, and of either
-- protocol, and the clock grants at least one pass for each piece, the call returns exactly that response, whatever else was
-- waiting and whatever follows.
pub request_answered :
    (m : Message) (pieces : List Piece) (payload : List ℕ) (c : Client) (rest : List Read)
    (writes : List Bool) (n : ℕ) (rounds : List ℕ)
    → Fits m
    → (message_frame m).direction ≡ from_fc_byte
    → IsReady c.decoder
    → c.decoder.frames ≡ []
    → flatten (map piece_bytes pieces) ≡ message_bytes m
    → c.port.reads ≡ map piece_read pieces ++ rest
    → c.port.writes ≡ true ∷ writes
    → c.port.rounds ≡ n ∷ rounds
    → length pieces ≤ n
    → (request (message_frame m).code payload c).0 ≡ ok (message_frame m)
unfolding request flush_frames send write_frame receive wait_for
request_answered m pieces payload c rest writes n rounds fits dir ready empty cut r w k h =
    ap (λ o. (continue o (λ _. receive f.code)).0) sent
    ∙ ap (λ o. o.0) (claim-none f.code (wait_for f.code) after_send unclaimed)
    ∙ ap (λ o. (receive_loop o.0 f.code (record after_send { port = o.1 })).0)
        (next_rounds-cons after_send.port n rounds k)
    ∙ receive_loop-Awaits f pieces rest n waiting dir h (record {
      unclaimed = unclaimed;
      reads = r;
      quiet = empty;
      last = delivery.0;
      fed = ap (feed c.decoder) cut ∙ delivery.1.fed;
      complete = delivery.1.frames ∙ ap (λ fs. fs ++ f ∷ []) empty;
    })
  where
    f : Frame
    f = message_frame m

    flushed : Client
    flushed = record c { pending = delete f.code c.pending }

    bytes : List ℕ
    bytes = encode_v1 f.code payload

    after_send : Client
    after_send = record flushed {
      port = record (c.port) { sent = c.port.sent ++ bytes ∷ []; writes = writes };
    }

    waiting : Client
    waiting = record after_send { port = record (after_send.port) { rounds = rounds } }

    sent : send f.code payload flushed ≡ (ok tt, after_send)
    sent =
        ap
          (λ (o : Bool × Port).
            ((if o.0 then ok tt else err write_failed), record flushed { port = o.1 }))
          (write-success bytes c.port writes w)

    unclaimed : find f.code (delete f.code c.pending) ≡ none
    unclaimed =
        find-delete f.code f.code c.pending
        ∙ ap (λ b. if b then none else find f.code c.pending) (==_refl f.code)

    delivery : (e : FrameDecoder) × Delivers c.decoder (message_bytes m) (f ∷ []) e
    delivery = deliver_one m c.decoder fits ready
