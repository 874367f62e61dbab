-- ===== src/Msp/Huffman/Tree/Second.antt =====
-- The table of internal/msp/huffman.go, second part.
use logfalcon.Prelude.{List, [], ◌∷◌}
use logfalcon.Msp.Huffman.Tree.Entry.{HuffmanEntry, entry, eof_entry}

unfoldable pub raw_tree_tail : List HuffmanEntry
raw_tree_tail =
    entry 0x7d 10 0x0070
    ∷ entry 0x7e 10 0x006f
    ∷ entry 0x7f 10 0x006e
    ∷ entry 0x81 10 0x006d
    ∷ entry 0x82 10 0x006c
    ∷ entry 0x83 10 0x006b
    ∷ entry 0x84 10 0x006a
    ∷ entry 0x85 10 0x0069
    ∷ entry 0x86 10 0x0068
    ∷ entry 0x87 10 0x0067
    ∷ entry 0x88 10 0x0066
    ∷ entry 0x89 10 0x0065
    ∷ entry 0x8a 10 0x0064
    ∷ entry 0x8b 10 0x0063
    ∷ entry 0x8c 10 0x0062
    ∷ entry 0x8d 10 0x0061
    ∷ entry 0x8e 10 0x0060
    ∷ entry 0x8f 10 0x005f
    ∷ entry 0x90 10 0x005e
    ∷ entry 0x91 10 0x005d
    ∷ entry 0x92 10 0x005c
    ∷ entry 0x93 10 0x005b
    ∷ entry 0x94 10 0x005a
    ∷ entry 0x95 10 0x0059
    ∷ entry 0x96 10 0x0058
    ∷ entry 0x97 10 0x0057
    ∷ entry 0x98 10 0x0056
    ∷ entry 0x99 10 0x0055
    ∷ entry 0x9a 10 0x0054
    ∷ entry 0x9b 10 0x0053
    ∷ entry 0x9c 10 0x0052
    ∷ entry 0x9d 10 0x0051
    ∷ entry 0x9e 10 0x0050
    ∷ entry 0x9f 10 0x004f
    ∷ entry 0xa0 10 0x004e
    ∷ entry 0xa1 10 0x004d
    ∷ entry 0xa2 10 0x004c
    ∷ entry 0xa3 10 0x004b
    ∷ entry 0xa4 10 0x004a
    ∷ entry 0xa5 10 0x0049
    ∷ entry 0xa6 10 0x0048
    ∷ entry 0xa7 10 0x0047
    ∷ entry 0xa8 10 0x0046
    ∷ entry 0xa9 10 0x0045
    ∷ entry 0xaa 10 0x0044
    ∷ entry 0xab 10 0x0043
    ∷ entry 0xac 10 0x0042
    ∷ entry 0xad 10 0x0041
    ∷ entry 0xae 10 0x0040
    ∷ entry 0xaf 10 0x003f
    ∷ entry 0xb0 10 0x003e
    ∷ entry 0xb1 10 0x003d
    ∷ entry 0xb2 10 0x003c
    ∷ entry 0xb3 10 0x003b
    ∷ entry 0xb4 10 0x003a
    ∷ entry 0xb5 10 0x0039
    ∷ entry 0xb6 10 0x0038
    ∷ entry 0xb7 10 0x0037
    ∷ entry 0xb8 10 0x0036
    ∷ entry 0xb9 10 0x0035
    ∷ entry 0xba 10 0x0034
    ∷ entry 0xbb 10 0x0033
    ∷ entry 0xbc 10 0x0032
    ∷ entry 0xbd 10 0x0031
    ∷ entry 0xbe 10 0x0030
    ∷ entry 0xbf 10 0x002f
    ∷ entry 0xc0 10 0x002e
    ∷ entry 0xc1 10 0x002d
    ∷ entry 0xc2 10 0x002c
    ∷ entry 0xc3 10 0x002b
    ∷ entry 0xc4 10 0x002a
    ∷ entry 0xc5 10 0x0029
    ∷ entry 0xc6 10 0x0028
    ∷ entry 0xc7 10 0x0027
    ∷ entry 0xc8 10 0x0026
    ∷ entry 0xc9 10 0x0025
    ∷ entry 0xca 10 0x0024
    ∷ entry 0xcb 10 0x0023
    ∷ entry 0xcc 10 0x0022
    ∷ entry 0xcd 10 0x0021
    ∷ entry 0xce 10 0x0020
    ∷ entry 0xcf 10 0x001f
    ∷ entry 0xd0 10 0x001e
    ∷ entry 0xd1 10 0x001d
    ∷ entry 0xd2 10 0x001c
    ∷ entry 0xd3 10 0x001b
    ∷ entry 0xd4 10 0x001a
    ∷ entry 0xd6 10 0x0019
    ∷ entry 0xd7 10 0x0018
    ∷ entry 0xd8 10 0x0017
    ∷ entry 0xd9 10 0x0016
    ∷ entry 0xda 10 0x0015
    ∷ entry 0xdb 10 0x0014
    ∷ entry 0xdc 10 0x0013
    ∷ entry 0xde 10 0x0012
    ∷ entry 0xdf 10 0x0011
    ∷ entry 0xe1 10 0x0010
    ∷ entry 0xe2 10 0x000f
    ∷ entry 0xe4 10 0x000e
    ∷ entry 0xef 10 0x000d
    ∷ entry 0xd5 11 0x0019
    ∷ entry 0xdd 11 0x0018
    ∷ entry 0xe3 11 0x0017
    ∷ entry 0xe5 11 0x0016
    ∷ entry 0xe6 11 0x0015
    ∷ entry 0xe7 11 0x0014
    ∷ entry 0xe8 11 0x0013
    ∷ entry 0xe9 11 0x0012
    ∷ entry 0xea 11 0x0011
    ∷ entry 0xeb 11 0x0010
    ∷ entry 0xec 11 0x000f
    ∷ entry 0xed 11 0x000e
    ∷ entry 0xee 11 0x000d
    ∷ entry 0xf2 11 0x000c
    ∷ entry 0xf3 11 0x000b
    ∷ entry 0xf4 11 0x000a
    ∷ entry 0xf5 11 0x0009
    ∷ entry 0xf6 11 0x0008
    ∷ entry 0xf7 11 0x0007
    ∷ entry 0xf8 11 0x0006
    ∷ entry 0xfa 11 0x0005
    ∷ entry 0xfb 11 0x0004
    ∷ entry 0xfc 11 0x0003
    ∷ entry 0xfd 11 0x0002
    ∷ entry 0xfe 11 0x0001
    ∷ entry 0xf9 12 0x0001
    ∷ eof_entry 12 0x0000
    ∷ []
