-- ===== src/Perm.antt =====
-- perm/perm.py: the tree that a source with PERM macros is parsed into, and what a seed expands it to.
-- `Syntax` and `Evaluate` hold the classes and their methods, `Shuffle` the permutation of lines and
-- `Root` the choice of the PERM_ONCE alternatives. The other modules prove.
pub mod Syntax
pub mod State
pub mod Shuffle
pub mod Evaluate
pub mod Root
pub mod Radix
pub mod Lineswap
pub mod Safety
pub mod Once
pub mod Choices
pub mod AstIds
pub mod Seeds
pub mod SeedOrder
