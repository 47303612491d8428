-- ===== src/Randomizer.antt =====
-- randomizer.py: the passes over the C tree, and what they need to know of it. What each child is about
-- stands at its top.
pub mod Locations
pub mod Chains
pub mod Monotone
pub mod Region
pub mod Pragmas
pub mod Operators
pub mod Meaning
pub mod Inequality
pub mod Replace
pub mod Compound
pub mod Comma
