-- ===== src/Msp/Huffman/Tree/First.antt =====
-- The table of internal/msp/huffman.go, first part.
use logfalcon.Prelude.{List, [], ◌∷◌}
use logfalcon.Msp.Huffman.Tree.Entry.{HuffmanEntry, entry}

unfoldable pub raw_tree_head : List HuffmanEntry
raw_tree_head =
    entry 0x00 2 0x0003
    ∷ entry 0x01 3 0x0005
    ∷ entry 0x02 4 0x0009
    ∷ entry 0x03 5 0x0011
    ∷ entry 0x04 5 0x0010
    ∷ entry 0x50 5 0x000f
    ∷ entry 0x05 6 0x001d
    ∷ entry 0x06 6 0x001c
    ∷ entry 0x07 6 0x001b
    ∷ entry 0x08 6 0x001a
    ∷ entry 0x10 6 0x0019
    ∷ entry 0x09 7 0x0031
    ∷ entry 0x0a 7 0x0030
    ∷ entry 0x0b 7 0x002f
    ∷ entry 0x0c 7 0x002e
    ∷ entry 0x0d 7 0x002d
    ∷ entry 0x0e 7 0x002c
    ∷ entry 0x0f 7 0x002b
    ∷ entry 0x11 7 0x002a
    ∷ entry 0x12 7 0x0029
    ∷ entry 0x13 8 0x0051
    ∷ entry 0x14 8 0x0050
    ∷ entry 0x15 8 0x004f
    ∷ entry 0x16 8 0x004e
    ∷ entry 0x17 8 0x004d
    ∷ entry 0x18 8 0x004c
    ∷ entry 0x19 8 0x004b
    ∷ entry 0x1a 8 0x004a
    ∷ entry 0x1b 8 0x0049
    ∷ entry 0x1c 8 0x0048
    ∷ entry 0x1d 8 0x0047
    ∷ entry 0x1e 8 0x0046
    ∷ entry 0x1f 8 0x0045
    ∷ entry 0x20 8 0x0044
    ∷ entry 0x21 8 0x0043
    ∷ entry 0x22 8 0x0042
    ∷ entry 0x23 8 0x0041
    ∷ entry 0x24 8 0x0040
    ∷ entry 0x30 8 0x003f
    ∷ entry 0x40 8 0x003e
    ∷ entry 0xf0 8 0x003d
    ∷ entry 0x25 9 0x0079
    ∷ entry 0x26 9 0x0078
    ∷ entry 0x27 9 0x0077
    ∷ entry 0x28 9 0x0076
    ∷ entry 0x29 9 0x0075
    ∷ entry 0x2a 9 0x0074
    ∷ entry 0x2b 9 0x0073
    ∷ entry 0x2c 9 0x0072
    ∷ entry 0x2d 9 0x0071
    ∷ entry 0x2e 9 0x0070
    ∷ entry 0x2f 9 0x006f
    ∷ entry 0x31 9 0x006e
    ∷ entry 0x32 9 0x006d
    ∷ entry 0x33 9 0x006c
    ∷ entry 0x34 9 0x006b
    ∷ entry 0x35 9 0x006a
    ∷ entry 0x36 9 0x0069
    ∷ entry 0x37 9 0x0068
    ∷ entry 0x38 9 0x0067
    ∷ entry 0x39 9 0x0066
    ∷ entry 0x3a 9 0x0065
    ∷ entry 0x3b 9 0x0064
    ∷ entry 0x3c 9 0x0063
    ∷ entry 0x3d 9 0x0062
    ∷ entry 0x3e 9 0x0061
    ∷ entry 0x3f 9 0x0060
    ∷ entry 0x41 9 0x005f
    ∷ entry 0x42 9 0x005e
    ∷ entry 0x43 9 0x005d
    ∷ entry 0x44 9 0x005c
    ∷ entry 0x45 9 0x005b
    ∷ entry 0x46 9 0x005a
    ∷ entry 0x47 9 0x0059
    ∷ entry 0x48 9 0x0058
    ∷ entry 0x49 9 0x0057
    ∷ entry 0x4c 9 0x0056
    ∷ entry 0x4f 9 0x0055
    ∷ entry 0x51 9 0x0054
    ∷ entry 0x80 9 0x0053
    ∷ entry 0xe0 9 0x0052
    ∷ entry 0xf1 9 0x0051
    ∷ entry 0xff 9 0x0050
    ∷ entry 0x4a 10 0x009f
    ∷ entry 0x4b 10 0x009e
    ∷ entry 0x4d 10 0x009d
    ∷ entry 0x4e 10 0x009c
    ∷ entry 0x52 10 0x009b
    ∷ entry 0x53 10 0x009a
    ∷ entry 0x54 10 0x0099
    ∷ entry 0x55 10 0x0098
    ∷ entry 0x56 10 0x0097
    ∷ entry 0x57 10 0x0096
    ∷ entry 0x58 10 0x0095
    ∷ entry 0x59 10 0x0094
    ∷ entry 0x5a 10 0x0093
    ∷ entry 0x5b 10 0x0092
    ∷ entry 0x5c 10 0x0091
    ∷ entry 0x5d 10 0x0090
    ∷ entry 0x5e 10 0x008f
    ∷ entry 0x5f 10 0x008e
    ∷ entry 0x60 10 0x008d
    ∷ entry 0x61 10 0x008c
    ∷ entry 0x62 10 0x008b
    ∷ entry 0x63 10 0x008a
    ∷ entry 0x64 10 0x0089
    ∷ entry 0x65 10 0x0088
    ∷ entry 0x66 10 0x0087
    ∷ entry 0x67 10 0x0086
    ∷ entry 0x68 10 0x0085
    ∷ entry 0x69 10 0x0084
    ∷ entry 0x6a 10 0x0083
    ∷ entry 0x6b 10 0x0082
    ∷ entry 0x6c 10 0x0081
    ∷ entry 0x6d 10 0x0080
    ∷ entry 0x6e 10 0x007f
    ∷ entry 0x6f 10 0x007e
    ∷ entry 0x70 10 0x007d
    ∷ entry 0x71 10 0x007c
    ∷ entry 0x72 10 0x007b
    ∷ entry 0x73 10 0x007a
    ∷ entry 0x74 10 0x0079
    ∷ entry 0x75 10 0x0078
    ∷ entry 0x76 10 0x0077
    ∷ entry 0x77 10 0x0076
    ∷ entry 0x78 10 0x0075
    ∷ entry 0x79 10 0x0074
    ∷ entry 0x7a 10 0x0073
    ∷ entry 0x7b 10 0x0072
    ∷ entry 0x7c 10 0x0071
    ∷ []
