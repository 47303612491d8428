-- ===== src/Parse.antt =====
-- perm/parse.py: from a source with PERM macros to a tree of `Perm`. `Split` and `Macro` hold the
-- scanners, `Grammar` the recursive parser; the other modules prove.
pub mod Monad
pub mod Split
pub mod Macro
pub mod Integer
pub mod Numbers
pub mod Grammar
pub mod Nesting
pub mod Search
pub mod Rules
pub mod Sizes
pub mod Total
pub mod Roots
