-- ===== src/Sync/Status.antt =====
-- The status that the dashboard polls, in internal/sync/orchestrator.go. The speed and the remaining
-- time, floats made of clock readings, are not modelled. Every access holds the lock, so each of
-- these functions is one atomic step.
use Prim.Native.String.{String}
use logfalcon.Prelude.{ℕ, Option, none, List, [], ◌∷◌, ◌++◌}
use logfalcon.Fc.Versions.{VersionError}
use logfalcon.Fc.Detector.{FcInfo, DetectError}
use logfalcon.Msp.Client.{ClientError, decimal_byte}

-- A message: a fixed text, one that names the port, or the text of a detection error.
pub data Message : Type 0 where
  text : String → Message
  could_not_open_port : Message
  detection_failed : DetectError ClientError → Message

-- `Status`.
pub record Status : Type 0 where
  pub state : String
  pub progress : ℕ
  pub message : Message
  pub bytes_copied : ℕ
  pub total_bytes : ℕ
  pub fc_variant : List ℕ
  pub fc_firmware_version : List ℕ
  pub fc_api_version : List ℕ
  pub warning : Option VersionError

-- `currentStatus` when the process begins.
abbrev pub first_status : Status
first_status = record {
  state = "idle";
  progress = 0;
  message = text "Ready for the next sync.";
  bytes_copied = 0;
  total_bytes = 0;
  fc_variant = [];
  fc_firmware_version = [];
  fc_api_version = [];
  warning = none;
}

unfoldable pub set_status : String → ℕ → Message → Status → Status
set_status state progress message prev = record {
  state = state;
  progress = progress;
  message = message;
  bytes_copied = 0;
  total_bytes = 0;
  fc_variant = prev.fc_variant;
  fc_firmware_version = prev.fc_firmware_version;
  fc_api_version = prev.fc_api_version;
  warning = prev.warning;
}

unfoldable pub set_status_sync : String → ℕ → Message → ℕ → ℕ → Status → Status
set_status_sync state progress message bytes_copied total_bytes prev = record {
  state = state;
  progress = progress;
  message = message;
  bytes_copied = bytes_copied;
  total_bytes = total_bytes;
  fc_variant = prev.fc_variant;
  fc_firmware_version = prev.fc_firmware_version;
  fc_api_version = prev.fc_api_version;
  warning = prev.warning;
}

unfoldable pub set_fc_identity : FcInfo → Status → Status
unfolding decimal_byte
set_fc_identity info prev = record prev {
  fc_variant = info.variant;
  fc_firmware_version = info.firmware_version;
  fc_api_version = decimal_byte info.api_major ++ b'.' ∷ decimal_byte info.api_minor;
  warning = info.warning;
}

-- What step 2 clears before the handshake.
unfoldable pub clear_fc_identity : Status → Status
clear_fc_identity prev = record prev {
  fc_variant = [];
  fc_firmware_version = [];
  fc_api_version = [];
  warning = none;
}
