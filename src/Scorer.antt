-- ===== src/Scorer.antt =====
-- scorer.py: the penalties of a candidate's listing against the target's. `Lines` compares two lines,
-- `Score` adds the penalties up; `Tally`,
-- `Zero` and `Match` prove.
pub mod Lines
pub mod Score
pub mod Tally
pub mod Zero
pub mod Match
