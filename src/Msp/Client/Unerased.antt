-- ===== src/Msp/Client/Unerased.antt =====
-- Which methods of the client never hand the erase command to the port.
use logfalcon.Prelude.{
  ℕ, zero, suc, ◌+◌, get_elem?, ◌≡◌, refl, Bool, false, List, [], ◌∷◌, ◌++◌, All, All-append,
  bytes_eq, ◌==◌, ltb, Bool-cases, Option-cases, inl, inr, length, arith,
}
use logfalcon.Exec.{◌>>=◌, ◌>>◌, continue_keeps}
use logfalcon.Msp.Framing.{Frame, feed, encode_v1, encode_v2}
use logfalcon.Msp.Port.{Read, read, read_eof, read_error, Port, next_read, next_rounds, write}
use logfalcon.Msp.PendingFrames.{find}
use logfalcon.Msp.Client.{
  Client, M, write_frame, send, send_v2, take_in, handle_read, poll, claim, receive_loop, wait_for,
  receive, flush_frames, request, need, get_api_version, get_fc_variant, get_fc_version, get_uid,
  get_blackbox_config, get_dataflash_summary, index, index_uint32, summary_of,
  send_flash_read_request, receive_flash_read_response,
}
use logfalcon.Msp.Constants.{msp_dataflash_erase}

abbrev pub erase_frame : List ℕ
erase_frame = encode_v1 msp_dataflash_erase []

-- The port was never handed the erase command.
abbrev pub Unerased : Client → Type 0
Unerased c = All (λ bytes. bytes_eq bytes erase_frame ≡ false) c.port.sent

sent-next_read : (p : Port) → (next_read p).1.sent ≡ p.sent
unfolding next_read
sent-next_read p = ground arith

sent-next_rounds : (p : Port) → (next_rounds p).1.sent ≡ p.sent
unfolding next_rounds
sent-next_rounds p = ground arith

sent-write : (bytes : List ℕ) (p : Port) → (write bytes p).1.sent ≡ p.sent ++ bytes ∷ []
unfolding write
sent-write bytes p = ground arith

write_frame-Unerased :
    (bytes : List ℕ) (c : Client)
    → bytes_eq bytes erase_frame ≡ false
    → Unerased c
    → Unerased (write_frame bytes c).1
unfolding write_frame
write_frame-Unerased bytes c e h =
    rw (sent-write bytes c.port)
      (All-append (λ b. bytes_eq b erase_frame ≡ false) c.port.sent (bytes ∷ []) h (e, tt))

take_in-sent : (bytes : List ℕ) (c : Client) → (take_in bytes c).1.port.sent ≡ c.port.sent
unfolding take_in
take_in-sent bytes c = elim (Option-cases (feed c.decoder bytes)) [
  | inl e ↦ rw (take_in, e) refl
  | inr (d, e) ↦ rw (take_in, e) refl
]

handle_read-sent : (r : Read × Port) (c : Client) → (handle_read r c).1.port.sent ≡ r.1.sent
unfolding handle_read
handle_read-sent (read bytes, port) c = take_in-sent bytes (record c { port = port })
handle_read-sent (read_eof bytes, port) c = take_in-sent bytes (record c { port = port })
handle_read-sent (read_error, port) c = refl

poll-Unerased : (c : Client) → Unerased c → Unerased (poll c).1
unfolding poll
poll-Unerased c h = rw (handle_read-sent (next_read c.port) c, sent-next_read c.port) h

claim-Unerased :
    (code : ℕ) (otherwise : M Frame) (c : Client)
    → Unerased c
    → Unerased (otherwise c).1
    → Unerased (claim code otherwise c).1
unfolding claim
claim-Unerased code otherwise c h k = elim (Option-cases (find code c.pending)) [
  | inl e ↦ rw (claim, e) k
  | inr (f, e) ↦ rw (claim, e) h
]

receive_loop-Unerased :
    (rounds code : ℕ) (c : Client) → Unerased c → Unerased (receive_loop rounds code c).1
unfolding receive_loop
receive_loop-Unerased zero code c h = h
receive_loop-Unerased (suc rounds) code c h =
    continue_keeps Unerased (poll c) _ (poll-Unerased c h) (λ _ d k.
      claim-Unerased code (receive_loop rounds code) d k (receive_loop-Unerased rounds code d k))

pub receive-Unerased : (code : ℕ) (c : Client) → Unerased c → Unerased (receive code c).1
unfolding receive wait_for
receive-Unerased code c h = claim-Unerased code (wait_for code) c h (
    receive_loop-Unerased (next_rounds c.port).0 code (record c { port = (next_rounds c.port).1 })
      (rw (sent-next_rounds c.port) h))

-- A v1 request with another code is another frame.
other_code :
    (code : ℕ) (payload : List ℕ)
    → (code == msp_dataflash_erase) ≡ false
    → bytes_eq (encode_v1 code payload) erase_frame ≡ false
unfolding encode_v1 bytes_eq
other_code code payload e = ground (arith, e)

pub send-Unerased :
    (code : ℕ) (payload : List ℕ) (c : Client)
    → (code == msp_dataflash_erase) ≡ false
    → Unerased c
    → Unerased (send code payload c).1
unfolding send
send-Unerased code payload c e h =
    write_frame-Unerased (encode_v1 code payload) c (other_code code payload e) h

-- A v2 request is not a v1 request.
other_protocol :
    (code : ℕ) (payload : List ℕ) → bytes_eq (encode_v2 code payload) erase_frame ≡ false
unfolding encode_v1 encode_v2 bytes_eq
other_protocol code payload = refl

pub send_v2-Unerased :
    (code : ℕ) (payload : List ℕ) (c : Client) → Unerased c → Unerased (send_v2 code payload c).1
unfolding send_v2
send_v2-Unerased code payload c h =
    write_frame-Unerased (encode_v2 code payload) c (other_protocol code payload) h

pub request-Unerased :
    (code : ℕ) (payload : List ℕ) (c : Client)
    → (code == msp_dataflash_erase) ≡ false
    → Unerased c
    → Unerased (request code payload c).1
unfolding request flush_frames
request-Unerased code payload c e h =
    continue_keeps Unerased (send code payload flushed) _ (send-Unerased code payload flushed e h)
      (λ _ d k. receive-Unerased code d k)
  where
    flushed : Client
    flushed = (flush_frames code c).1

-- A query hands its request to the port, and what it makes of the reply hands nothing.
query-Unerased :
    {A : Type 0} (code : ℕ) (f : Frame → M A) (c : Client)
    → (code == msp_dataflash_erase) ≡ false
    → ((g : Frame) (d : Client) → Unerased d → Unerased (f g d).1)
    → Unerased c
    → Unerased (◌>>=◌ (request code []) f c).1
query-Unerased code f c e k h =
    continue_keeps Unerased (request code [] c) f (request-Unerased code [] c e h) k

need-Unerased :
    {A : Type 0} (n : ℕ) (payload : List ℕ) (m : M A) (c : Client)
    → Unerased c
    → Unerased (m c).1
    → Unerased (◌>>◌ (need n payload) m c).1
need-Unerased n payload m c h k = elim (Bool-cases (ltb (length payload) n)) [
  | inl e ↦ rw e h
  | inr e ↦ rw e k
]

index-Unerased : (p : List ℕ) (i : ℕ) (c : Client) → Unerased c → Unerased (index p i c).1
unfolding index
index-Unerased p i c h = elim (Option-cases (get_elem? p i)) [
  | inl e ↦ rw (index, e) h
  | inr (b, e) ↦ rw (index, e) h
]

index_then-Unerased :
    {A : Type 0} (p : List ℕ) (i : ℕ) (f : ℕ → M A) (c : Client)
    → ((b : ℕ) (d : Client) → Unerased d → Unerased (f b d).1)
    → Unerased c
    → Unerased (◌>>=◌ (index p i) f c).1
index_then-Unerased p i f c k h = continue_keeps Unerased (index p i c) f (index-Unerased p i c h) k

index_uint32-Unerased :
    (p : List ℕ) (i : ℕ) (c : Client) → Unerased c → Unerased (index_uint32 p i c).1
unfolding index_uint32
index_uint32-Unerased p i c h =
    index_then-Unerased p i _ c
      (λ _ c1. index_then-Unerased p (i + 1) _ c1 (λ _ c2.
        index_then-Unerased p (i + 2) _ c2
          (λ _ c3. index_then-Unerased p (i + 3) _ c3 (λ _ c4 k. k))))
      h

summary_of-Unerased : (p : List ℕ) (c : Client) → Unerased c → Unerased (summary_of p c).1
unfolding summary_of
summary_of-Unerased p c h =
    index_then-Unerased p 0 _ c
      (λ _ c1 h1.
        continue_keeps Unerased (index_uint32 p 1 c1) _ (index_uint32-Unerased p 1 c1 h1)
          (λ _ c2 h2.
            continue_keeps Unerased (index_uint32 p 5 c2) _ (index_uint32-Unerased p 5 c2 h2)
              (λ _ c3 h3.
                continue_keeps Unerased (index_uint32 p 9 c3) _ (index_uint32-Unerased p 9 c3 h3)
                  (λ _ c4 k. k))))
      h

pub get_api_version-Unerased : (c : Client) → Unerased c → Unerased (get_api_version c).1
unfolding get_api_version
get_api_version-Unerased c h =
    query-Unerased _ _ c refl
      (λ g d k. need-Unerased 3 g.payload _ d k (
        index_then-Unerased g.payload 1 _ d
          (λ _ d1. index_then-Unerased g.payload 2 _ d1 (λ _ d2 k. k)) k))
      h

pub get_fc_variant-Unerased : (c : Client) → Unerased c → Unerased (get_fc_variant c).1
unfolding get_fc_variant
get_fc_variant-Unerased c h = query-Unerased _ _ c refl (λ g d k. k) h

pub get_fc_version-Unerased : (c : Client) → Unerased c → Unerased (get_fc_version c).1
unfolding get_fc_version
get_fc_version-Unerased c h =
    query-Unerased _ _ c refl
      (λ g d k. need-Unerased 3 g.payload _ d k (
        index_then-Unerased g.payload 0 _ d
          (λ _ d1.
            index_then-Unerased g.payload 1 _ d1
              (λ _ d2. index_then-Unerased g.payload 2 _ d2 (λ _ d3 k. k)))
          k))
      h

pub get_uid-Unerased : (c : Client) → Unerased c → Unerased (get_uid c).1
unfolding get_uid
get_uid-Unerased c h = query-Unerased _ _ c refl (λ g d k. k) h

pub get_blackbox_config-Unerased : (c : Client) → Unerased c → Unerased (get_blackbox_config c).1
unfolding get_blackbox_config
get_blackbox_config-Unerased c h =
    query-Unerased _ _ c refl
      (λ g d k. need-Unerased 1 g.payload _ d k (index-Unerased g.payload 0 d k)) h

pub get_dataflash_summary-Unerased :
    (c : Client) → Unerased c → Unerased (get_dataflash_summary c).1
unfolding get_dataflash_summary
get_dataflash_summary-Unerased c h =
    query-Unerased _ _ c refl
      (λ g d k. need-Unerased 13 g.payload _ d k (summary_of-Unerased g.payload d k)) h

pub send_flash_read_request-Unerased :
    (address size : ℕ) (compression : Bool) (c : Client)
    → Unerased c
    → Unerased (send_flash_read_request address size compression c).1
unfolding send_flash_read_request
send_flash_read_request-Unerased address size compression c h = send_v2-Unerased _ _ c h

pub receive_flash_read_response-Unerased :
    (c : Client) → Unerased c → Unerased (receive_flash_read_response c).1
unfolding receive_flash_read_response
receive_flash_read_response-Unerased c h =
    continue_keeps Unerased (receive _ c) _ (receive-Unerased _ c h) (λ f d k. k)
