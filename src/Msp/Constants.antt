-- ===== src/Msp/Constants.antt =====
-- internal/msp/constants.go: the commands, the direction of responses, the compression.
use logfalcon.Prelude.{ℕ}

-- The command codes of constants.go.
abbrev pub msp_api_version : ℕ
msp_api_version = 1

abbrev pub msp_fc_variant : ℕ
msp_fc_variant = 2

abbrev pub msp_fc_version : ℕ
msp_fc_version = 3

abbrev pub msp_uid : ℕ
msp_uid = 160

abbrev pub msp_blackbox_config : ℕ
msp_blackbox_config = 80

abbrev pub msp_dataflash_summary : ℕ
msp_dataflash_summary = 70

abbrev pub msp_dataflash_read : ℕ
msp_dataflash_read = 71

abbrev pub msp_dataflash_erase : ℕ
msp_dataflash_erase = 72

-- `MSPDirectionFromFC`.
abbrev pub from_fc_byte : ℕ
from_fc_byte = b'>'

abbrev pub dataflash_compression_huffman : ℕ
dataflash_compression_huffman = 1
