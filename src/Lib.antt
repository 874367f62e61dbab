-- ===== src/Lib.antt =====
-- logfalcon copies the blackbox flash of a flight controller to the SD card of a Raspberry Pi over
-- MSP, checks the copy, and erases the flash. This library models the Go packages below internal/
-- that do so, and the command that runs them, and proves what makes them correct.
--
-- The parts and their modules:
--   internal/msp/crc.go            Msp.Crc: the table of `init`, `CRC8Xor`, `CRC8DVBS2`
--   internal/msp/framing.go        Msp.Framing: `EncodeV1`, `EncodeV2`, and `FrameDecoder` with its
--                                  14 states, one clause of `dispatch` for each; the payload slice
--                                  and the reused buffer behind it; an index panic is `none`
--   internal/msp/huffman.go        Msp.Huffman: the code table, the sort and the lookup map of
--                                  `init`, `HuffmanDecode`
--   internal/msp/client.go         Msp.Port, Msp.PendingFrames, Msp.Client: `Client` and its methods
--   internal/msp/constants.go      Msp.Constants, and with the modules that use them
--   internal/fc/versions.go        Fc.Versions: `CheckVersion`
--   internal/fc/detector.go        Fc.Detector: `Detect`, over any implementation of `MSPClient`
--   internal/storage/writer.go     Storage.Writer: `StreamWriter` and the `bufio.Writer` below it
--   internal/storage/manifest.go   Storage.Sessions: `MakeSessionDir`, `ListSessions`;
--                                  Storage.Cleanup: `CleanupOldestSessions`; Storage.Atomic:
--                                  `atomicJSONWrite`; Sync.Orchestrator: the manifest as a sync writes
--                                  and updates it
--   internal/sync/orchestrator.go  Sync.Status, Sync.World, Sync.Preparation, Sync.FlashRead,
--                                  Sync.Orchestrator
--   internal/led/controller.go     Led.Controller: `Controller` as a step relation of its goroutine and
--                                  its callers; the states are in Sync.World
--   internal/config/config.go      Config: `Default`, `Load`, `applyEnvOverrides`
--   internal/web/server.go         Web.Text, Web.Stream, Web.Files: `sendFile`; Web.Sessions:
--                                  `resolveSessionPath`, `handleDownload`; Web.Deletion:
--                                  `handleDeleteSession`; Web.Hotspot: `readHostapdConfig`,
--                                  `rewritePrefixedLines`; Web.Settings: `handleSettingsPost`;
--                                  Web.Cache, Web.Idle; Web.Events: `handleSSE`;
--                                  Storage.Atomic: `atomicWriteFile`
--   cmd/logfalcon/main.go          Cmd: `main`
-- Prelude holds the shared helpers: Boolean tests, lists over the native numbers, and the bit
-- operations of Go as arithmetic. Exec is the monad of calls that change a state and may return an
-- error or panic. Tests holds runs at concrete inputs.
--
-- How the parts interact: the orchestrator calls the detector and the client; the detector calls the
-- client through an interface, which is a record of operations here; the client feeds what it reads
-- from the port to the frame decoder, keeps the frames of responses by their codes, and hands
-- compressed flash data to the Huffman decoder; the orchestrator gives the data to the writer.
-- The command loads the configuration, and gives it to the orchestrator or to the server.
--
-- Bytes, and the 16- and 32-bit words, are natural numbers, and the conversions that cut a number
-- off are written out (`u8`, `u16`, `u32`). A string is the list of its bytes.
--
-- What lies outside the repository, the serial port, the clock, the file system and the LED, is given
-- as lists of the answers to come (Msp.Port, Storage.Writer, Sync.World), so every theorem that
-- speaks of all clients, writers or worlds speaks of all behaviours of these. SHA-256 is a function
-- of the bytes hashed, a parameter. Loops that wait for a deadline are recursions on the number of
-- passes that begin before it, which is the clock's answer (`rounds`, `sync_passes`,
-- `erase_passes`). The loop of `streamChunked` has one pass more than the bytes that it is to send, for
-- every pass but the last takes off at least one. Every other loop is structural recursion.
--
-- The web server finds the sessions that syncs leave on the card: it lists and serves them by the paths
-- that `MakeSessionDir` gives them, and its deletion drops the cache of the listing. A directory is the
-- list of its entries, as `ReadDir` gives them, and a replaced file is followed through every system call,
-- for a power loss can come after any of them. `sort.Slice` is an argument of what it documents.
--
-- Not modelled: the texts of errors and log lines; the durations, the transfer speed and the time
-- stamps; the pages of the web server, its routes and the compression of responses; the parser of the
-- command line, and the system calls of internal/util.
pub mod Prelude
pub mod Exec
pub mod Msp
pub mod Fc
pub mod Storage
pub mod Sync
pub mod Config
pub mod Led
pub mod Web
pub mod Cmd
pub mod Tests
