-- ===== src/Examples.antt =====
-- Runs at concrete inputs, and the theorems at inputs that meet their hypotheses.
mod Macros
mod Scores
mod Pool
mod Cache
mod Codec
mod Network
mod Sandbox
mod Relay
mod Turns
mod Trees
mod Passes
