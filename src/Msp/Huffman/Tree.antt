-- ===== src/Msp/Huffman/Tree.antt =====
-- The 257 codes of internal/msp/huffman.go, in the order of the source, in two parts.
mod Entry
mod First
mod Second
use logfalcon.Prelude.{List, ◌++◌}
pub use Entry.*
unfoldable pub use First.{raw_tree_head}
unfoldable pub use Second.{raw_tree_tail}

unfoldable pub raw_tree : List HuffmanEntry
unfolding raw_tree_head raw_tree_tail
raw_tree = raw_tree_head ++ raw_tree_tail
