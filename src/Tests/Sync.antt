-- ===== src/Tests/Sync.antt =====
-- A whole sync of internal/sync/orchestrator.go at a concrete input, and as cmd/logfalcon runs it.
use logfalcon.Prelude.{ℕ, ◌≡◌, true, false, none, some, List, [], ◌∷◌, replicate, ◌%◌, ◌↔◌, arith}
use logfalcon.Msp.Framing.Wire.{from_fc}
use logfalcon.Msp.Framing.RoundTrip.{v1, message_bytes}
use logfalcon.Msp.Port.{Port, Read, read}
use logfalcon.Msp.Client.{new_client}
use logfalcon.Storage.Writer.{File, new_stream_writer}
use logfalcon.Sync.Status.{first_status}
use logfalcon.Sync.World.{World, Config, led_ready}
use logfalcon.Sync.FlashRead.{request_size}
use logfalcon.Sync.FlashRead.Requests.{request_size-empty}
use logfalcon.Sync.Orchestrator.{run}
use logfalcon.Cmd.{Flags}
use logfalcon.Sync.EraseSafety.{Idle}
use logfalcon.Sync.EraseSafety.Verified.{Ends, erase_only_verified}

abbrev a_file : File
a_file = record {
  content = [];
  synced = [];
  removed = false;
  read_back = none;
  writes = [];
  syncs = [];
  closes = [];
  rereads = [];
}

abbrev reply : ℕ → List ℕ → Read
reply code payload = read (message_bytes (v1 from_fc code payload))

-- A Betaflight controller with three bytes in its flash, which are gone after the erase.
abbrev a_port : Port
a_port = record {
  reads =
      reply 1 (0 ∷ 1 ∷ 45 ∷ [])
      ∷ reply 2 (66 ∷ 84 ∷ 70 ∷ 76 ∷ [])
      ∷ reply 3 (4 ∷ 5 ∷ 0 ∷ [])
      ∷ reply 160 (171 ∷ 205 ∷ [])
      ∷ reply 80 (1 ∷ [])
      ∷ reply 70 (3 ∷ 1 ∷ 0 ∷ 0 ∷ 0 ∷ 0 ∷ 1 ∷ 0 ∷ 0 ∷ 3 ∷ 0 ∷ 0 ∷ 0 ∷ [])
      ∷ reply 71 (0 ∷ 0 ∷ 0 ∷ 0 ∷ 3 ∷ 0 ∷ 0 ∷ 72 ∷ 32 ∷ 80 ∷ [])
      ∷ reply 70 (3 ∷ 1 ∷ 0 ∷ 0 ∷ 0 ∷ 0 ∷ 1 ∷ 0 ∷ 0 ∷ 0 ∷ 0 ∷ 0 ∷ 0 ∷ [])
      ∷ [];
  writes = replicate 9 true;
  rounds = replicate 8 1;
  sent = [];
}

abbrev a_world : World
a_world = record {
  client = new_client a_port;
  writer = new_stream_writer a_file;
  led = led_ready;
  status = first_status;
  manifest = none;
  port_opens = true;
  storage_made = true;
  session_made = true;
  output = some a_file;
  free_bytes = some 1000000000 ∷ [];
  manifest_writes = true ∷ true ∷ [];
  sync_passes = 10;
  erase_passes = 3;
}

abbrev a_config : Config
a_config = record {
  min_free_space_mb = 200;
  storage_pressure_cleanup = true;
  erase_after_sync = true;
  flash_chunk_size = 4096;
  flash_read_compression = true;
  dry_run = false;
}

-- The bytes themselves stand for their hash.
abbrev a_hash : List ℕ → List ℕ
a_hash bytes = bytes

a_world-Idle : Idle a_world
unfolding new_client
a_world-Idle = tt

erase_only_verified_example : Ends a_hash a_config (run a_hash a_config a_world).1
erase_only_verified_example = erase_only_verified a_hash a_config a_world a_world-Idle

-- The first request of a transfer of 8 MiB.
request_size-empty_example : (request_size 4096 8388608 ≡ 0) ↔ (8388608 % 65536 ≡ 0)
request_size-empty_example = request_size-empty 4096 8388608 (omega arith)

-- A sync that may erase, with the default configuration.
abbrev some_flags : Flags
some_flags = record {
  web_mode = false;
  serial_port = b'p' ∷ [];
  show_version = false;
  dry_run = false;
}
