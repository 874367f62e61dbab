-- ===== src/Sync/FlashRead/Requests.antt =====
-- How much a request for flash data asks for.
use logfalcon.Prelude.{ℕ, ◌<◌, ◌%◌, ◌≡◌, ◌↔◌, arith}
use logfalcon.Sync.FlashRead.{request_size}

-- With a chunk size that is not 0, a request asks for no bytes exactly where the number of bytes that
-- are left is a multiple of 65536, which is so for a full flash of 8 MiB.
pub request_size-empty :
    (chunk_size remaining : ℕ)
    → 0 < chunk_size
    → (request_size chunk_size remaining ≡ 0) ↔ (remaining % 65536 ≡ 0)
unfolding request_size
request_size-empty chunk_size remaining h = ground arith
