-- ===== src/Tree.antt =====
-- ast_util.py: the C tree. `Nodes` has the tree and its visitors, `Index` numbers the nodes, `Equal` compares
-- trees, and `Blocks` has the blocks of statements. The others prove, or say what a tree means.
pub mod Nodes
pub mod Index
pub mod Nesting
pub mod Blocks
pub mod Meaning
pub mod Inside
pub mod Equal
pub mod Same
pub mod Braces
pub mod Places
pub mod Normal
