-- ===== src/Msp/Client/Sound.antt =====
-- What every method of the client keeps: a decoder that cannot panic, and pending frames that are
-- responses to the codes under which they wait.
use mathlib.Core.Path.{subst}
use logfalcon.Prelude.{
  ◌∙◌, sym, ap, ==_iff, ℕ, zero, suc, ◌+◌, ◌*◌, ◌≤◌, ◌<◌, ◌≡◌, refl, get_elem?-some, Option, none,
  some, List, [], ◌∷◌, arith, IsByte, All, ◌==◌, ltb, if◌then◌else◌, Bool-cases, Option-cases, inl,
  inr, length,
}
use logfalcon.Exec.{Outcome, ok, err, panic, continue, pure, ◌>>=◌, ◌>>◌}
use logfalcon.Msp.Framing.{Frame, FrameDecoder, feed, encode_v1}
use logfalcon.Msp.Framing.Steps.{Ensures}
use logfalcon.Msp.Framing.Safety.{IsFrame, IsValid, feed-IsValid}
use logfalcon.Msp.Port.{
  Read, read, read_eof, read_error, Port, next_read, next_rounds, write, GivesBytes,
  next_read-GivesBytes, reads-next_rounds, reads-write,
}
use logfalcon.Msp.PendingFrames.{Pending, find, delete, put}
use logfalcon.Msp.Client.{
  ClientError, Client, M, write_frame, send, drain, take_in, handle_read, poll, claim, receive_loop,
  wait_for, receive, request, need, get_api_version, get_fc_variant, get_fc_version, get_uid,
  get_blackbox_config, get_dataflash_summary, erase_flash, index, index_uint32, summary_of,
}
use logfalcon.Msp.Constants.{from_fc_byte}

-- A response from the controller to the command `code`.
pub record IsResponse (code : ℕ) (f : Frame) : Type 0 where
  pub coded : f.code ≡ code
  pub from_fc : f.direction ≡ from_fc_byte
  pub framed : IsFrame f

abbrev pub IsKeyed : Pending → Type 0
IsKeyed p = All (λ e. IsResponse e.0 e.1) p

pub record IsSound (c : Client) : Type 0 where
  pub decoding : IsValid c.decoder
  pub keyed : IsKeyed c.pending
  pub bytes : All GivesBytes c.port.reads

-- No panic, a sound client, and `P` of the value where there is one.
abbrev pub Keeps : {A : Type 0} → (A → Type 0) → Outcome ClientError A × Client → Type 0
Keeps P (ok a, c) = P a × IsSound c
Keeps P (err e, c) = IsSound c
Keeps P (panic, c) = ⊥

abbrev pub Anything : {A : Type 0} → A → Type 0
Anything a = Unit

module _ {A B : Type 0} (P : A → Type 0) (Q : B → Type 0) (f : A → M B) where
  pub Keeps-bind :
      (r : Outcome ClientError A × Client)
      → Keeps P r
      → ((a : A) (c : Client) → P a → IsSound c → Keeps Q (f a c))
      → Keeps Q (continue r f)
  Keeps-bind (ok a, c) k h = h a c k.0 k.1
  Keeps-bind (err e, c) k h = k
  Keeps-bind (panic, c) k h = absurd k

delete-IsKeyed : (code : ℕ) (p : Pending) → IsKeyed p → IsKeyed (delete code p)
unfolding delete
delete-IsKeyed code [] h = tt
delete-IsKeyed code ((k, f) ∷ rest) h =
    let ih = delete-IsKeyed code rest h.1 in
    elim (Bool-cases (k == code)) [ inl e ↦ rw e ih | inr e ↦ rw e (h.0, ih) ]

put-IsKeyed : (f : Frame) (p : Pending) → IsResponse f.code f → IsKeyed p → IsKeyed (put f.code f p)
unfolding put
put-IsKeyed f p r h = (r, delete-IsKeyed f.code p h)

find-IsResponse :
    (code : ℕ) (p : Pending) (f : Frame) → IsKeyed p → find code p ≡ some f → IsResponse code f
unfolding find
find-IsResponse code ((k, g) ∷ rest) f h e = elim (Bool-cases (k == code)) [
  | inl same ↦
      let found : some g ≡ some f = sym (ap (λ t. if t then some g else find code rest) same) ∙ e in
      subst (λ c. IsResponse c f) ((==_iff k code).0 same) (subst (IsResponse k) (cc found) h.0)
  | inr other ↦
      find-IsResponse code rest f h.1
        (sym (ap (λ t. if t then some g else find code rest) other) ∙ e)
]
find-IsResponse code [] f h e = cc e

drain-IsKeyed :
    (frames : List Frame) (p : Pending) → All IsFrame frames → IsKeyed p → IsKeyed (drain frames p)
unfolding drain
drain-IsKeyed [] p all h = h
drain-IsKeyed (f ∷ frames) p all h = elim (Bool-cases (f.direction == from_fc_byte)) [
  | inl e ↦ rw e (
      drain-IsKeyed frames (put f.code f p) all.1 (
        put-IsKeyed f p
          (record { coded = refl; from_fc = (==_iff f.direction _).0 e; framed = all.0 }) h))
  | inr e ↦ rw e (drain-IsKeyed frames p all.1 h)
]

module _ (bytes : List ℕ) (c : Client) (all : All IsByte bytes) (h : IsSound c) where
  take_in-Keeps : Keeps (Anything {A = Unit {0}}) (take_in bytes c)
  unfolding take_in
  take_in-Keeps = go (feed c.decoder bytes) refl (feed-IsValid bytes c.decoder all h.decoding)
    where
      go :
          (o : Option FrameDecoder)
          → feed c.decoder bytes ≡ o
          → Ensures IsValid o
          → Keeps (Anything {A = Unit {0}}) (take_in bytes c)
      go none e v = absurd v
      go (some d) e v =
          rw (take_in, e)
            (
              tt,
              record {
                decoding = ground (arith, v);
                keyed = drain-IsKeyed d.frames c.pending v.delivered h.keyed;
                bytes = h.bytes;
              },
            )

handle_read-Keeps :
    (r : Read × Port) (c : Client)
    → GivesBytes r.0
    → All GivesBytes r.1.reads
    → IsSound c
    → Keeps (Anything {A = Unit {0}}) (handle_read r c)
unfolding handle_read
handle_read-Keeps (read bytes, port) c b all h =
    take_in-Keeps bytes (record c { port = port }) b
      (record { decoding = h.decoding; keyed = h.keyed; bytes = all })
handle_read-Keeps (read_eof bytes, port) c b all h =
    take_in-Keeps bytes (record c { port = port }) b
      (record { decoding = h.decoding; keyed = h.keyed; bytes = all })
handle_read-Keeps (read_error, port) c b all h = record {
  decoding = h.decoding;
  keyed = h.keyed;
  bytes = all;
}

poll-Keeps : (c : Client) → IsSound c → Keeps (Anything {A = Unit {0}}) (poll c)
unfolding poll
poll-Keeps c h =
    let (b, all) = next_read-GivesBytes c.port h.bytes in
    handle_read-Keeps (next_read c.port) c b all h

claim-Keeps :
    (code : ℕ) (otherwise : M Frame) (c : Client)
    → IsSound c
    → Keeps (IsResponse code) (otherwise c)
    → Keeps (IsResponse code) (claim code otherwise c)
unfolding claim
claim-Keeps code otherwise c h k = elim (Option-cases (find code c.pending)) [
  | inl e ↦ rw (claim, e) k
  | inr (f, e) ↦
      rw (claim, e)
        (
          find-IsResponse code c.pending f h.keyed e,
          record {
            decoding = h.decoding;
            keyed = delete-IsKeyed code c.pending h.keyed;
            bytes = h.bytes;
          },
        )
]

receive_loop-Keeps :
    (rounds code : ℕ) (c : Client)
    → IsSound c
    → Keeps (IsResponse code) (receive_loop rounds code c)
unfolding receive_loop
receive_loop-Keeps zero code c h = h
receive_loop-Keeps (suc rounds) code c h =
    Keeps-bind Anything (IsResponse code) _ (poll c) (poll-Keeps c h) (λ _ d _ k.
      claim-Keeps code (receive_loop rounds code) d k (receive_loop-Keeps rounds code d k))

wait_for-Keeps : (code : ℕ) (c : Client) → IsSound c → Keeps (IsResponse code) (wait_for code c)
unfolding wait_for
wait_for-Keeps code c h = receive_loop-Keeps (next_rounds c.port).0 code _ (record {
  decoding = h.decoding;
  keyed = h.keyed;
  bytes = rw (reads-next_rounds c.port) h.bytes;
})

-- `Receive` from a sound client: no panic; a frame that comes back is a response of the controller
-- to the code that was asked for, well formed; the client stays sound, whatever the outcome.
pub receive-Keeps : (code : ℕ) (c : Client) → IsSound c → Keeps (IsResponse code) (receive code c)
unfolding receive
receive-Keeps code c h = claim-Keeps code (wait_for code) c h (wait_for-Keeps code c h)

write_frame-Keeps :
    (bytes : List ℕ) (c : Client)
    → IsSound c
    → Keeps (Anything {A = Unit {0}}) (write_frame bytes c)
unfolding write_frame
write_frame-Keeps bytes c h = elim (Bool-cases (write bytes c.port).0) [
  | inl e ↦ rw (write_frame, e) (tt, after)
  | inr e ↦ rw (write_frame, e) after
]
  where
    after : IsSound (record c { port = (write bytes c.port).1 })
    after = record {
      decoding = h.decoding;
      keyed = h.keyed;
      bytes = rw (reads-write bytes c.port) h.bytes;
    }

send-Keeps :
    (code : ℕ) (payload : List ℕ) (c : Client)
    → IsSound c
    → Keeps (Anything {A = Unit {0}}) (send code payload c)
unfolding send
send-Keeps code payload c h = write_frame-Keeps (encode_v1 code payload) c h

pub request-Keeps :
    (code : ℕ) (payload : List ℕ) (c : Client)
    → IsSound c
    → Keeps (IsResponse code) (request code payload c)
unfolding request
request-Keeps code payload c h =
    Keeps-bind Anything (IsResponse code) _ (send code payload flushed)
      (send-Keeps code payload flushed flushed-IsSound) (λ _ d _ k. receive-Keeps code d k)
  where
    flushed : Client
    flushed = record c { pending = delete code c.pending }

    flushed-IsSound : IsSound flushed
    flushed-IsSound = record {
      decoding = h.decoding;
      keyed = delete-IsKeyed code c.pending h.keyed;
      bytes = h.bytes;
    }

map-Keeps :
    {A : Type 0} (code : ℕ) (f : Frame → M A) (c : Client)
    → IsSound c
    → ((g : Frame) (d : Client) → IsResponse code g → IsSound d → Keeps Anything (f g d))
    → Keeps Anything (◌>>=◌ (request code []) f c)
map-Keeps code f c h k =
    Keeps-bind (IsResponse code) Anything f (request code [] c) (request-Keeps code [] c h) k

need-Keeps :
    {A : Type 0} (n : ℕ) (payload : List ℕ) (m : M A) (c : Client)
    → IsSound c
    → (n ≤ length payload → Keeps Anything (m c))
    → Keeps Anything (◌>>◌ (need n payload) m c)
need-Keeps n payload m c h k = elim (Bool-cases (ltb (length payload) n)) [
  | inl e ↦ rw e h
  | inr e ↦ rw e (k (ground arith))
]

-- A byte that is there can be read.
index-Keeps :
    {A : Type 0} (p : List ℕ) (i : ℕ) (f : ℕ → M A) (c : Client)
    → i < length p
    → ((b : ℕ) → Keeps Anything (f b c))
    → Keeps Anything (◌>>=◌ (index p i) f c)
unfolding index
index-Keeps p i f c h k = let (b, e) = get_elem?-some p i h in rw (index, e) (k b)

index_uint32-Keeps :
    {A : Type 0} (p : List ℕ) (i : ℕ) (f : ℕ → M A) (c : Client)
    → i + 3 < length p
    → ((n : ℕ) → Keeps Anything (f n c))
    → Keeps Anything (◌>>=◌ (index_uint32 p i) f c)
unfolding index index_uint32
index_uint32-Keeps p i f c h k =
    let (b0, e0) = get_elem?-some p i (omega arith) in
    let (b1, e1) = get_elem?-some p (i + 1) (omega arith) in
    let (b2, e2) = get_elem?-some p (i + 2) (omega arith) in
    let (b3, e3) = get_elem?-some p (i + 3) h in
    rw (index, e0, e1, e2, e3) (k (b0 + b1 * 256 + (b2 + b3 * 256) * 65536))

summary_of-Keeps :
    (p : List ℕ) (c : Client) → IsSound c → 13 ≤ length p → Keeps Anything (summary_of p c)
unfolding summary_of
summary_of-Keeps p c h l = index-Keeps p 0 _ c (omega arith) (λ _.
    index_uint32-Keeps p 1 _ c (omega arith) (λ _.
      index_uint32-Keeps p 5 _ c (omega arith)
        (λ _. index_uint32-Keeps p 9 _ c (omega arith) (λ _. (tt, h)))))

index_byte-Keeps :
    (p : List ℕ) (c : Client) → IsSound c → 1 ≤ length p → Keeps Anything (index p 0 c)
unfolding index
index_byte-Keeps p c h l = let (b, e) = get_elem?-some p 0 (omega arith) in rw (index, e) (tt, h)

version_Keeps :
    (p : List ℕ) (c : Client)
    → IsSound c
    → 3 ≤ length p
    → Keeps {A = ℕ × ℕ} Anything
        (◌>>=◌ (index p 1) (λ major. ◌>>=◌ (index p 2) (λ minor. pure (major, minor))) c)
version_Keeps p c h l =
    index-Keeps p 1 _ c (omega arith) (λ _. index-Keeps p 2 _ c (omega arith) (λ _. (tt, h)))

-- The six queries and the erase command, from a sound client: none panics, whatever the port does
-- and however short a payload is, and each leaves the client sound, whatever its outcome.
pub commands-Keeps :
    (c : Client)
    → IsSound c
    → Keeps Anything (get_api_version c)
      × Keeps Anything (get_fc_variant c)
      × Keeps Anything (get_fc_version c)
      × Keeps Anything (get_uid c)
      × Keeps Anything (get_blackbox_config c)
      × Keeps Anything (get_dataflash_summary c)
      × Keeps (Anything {A = Unit {0}}) (erase_flash c)
unfolding get_api_version get_fc_variant get_fc_version get_uid get_blackbox_config
    get_dataflash_summary erase_flash
commands-Keeps c h = (
  map-Keeps _ _ c h (λ g d _ k. need-Keeps 3 g.payload _ d k (version_Keeps g.payload d k)),
  map-Keeps _ _ c h (λ g d _ k. (tt, k)),
  map-Keeps _ _ c h (λ g d _ k. need-Keeps 3 g.payload _ d k (λ l.
      index-Keeps g.payload 0 _ d (omega arith) (λ _.
        index-Keeps g.payload 1 _ d (omega arith)
          (λ _. index-Keeps g.payload 2 _ d (omega arith) (λ _. (tt, k)))))),
  map-Keeps _ _ c h (λ g d _ k. (tt, k)),
  map-Keeps _ _ c h
      (λ g d _ k. need-Keeps 1 g.payload _ d k (λ l. index_byte-Keeps g.payload d k l)),
  map-Keeps _ _ c h (λ g d _ k. need-Keeps 13 g.payload _ d k (summary_of-Keeps g.payload d k)),
  send-Keeps _ [] c h,
)
