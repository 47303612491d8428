-- ===== src/Permuter.antt =====
-- permuter.py and main.py: which results of the candidates are kept. `Results` is the filter of one
-- `Permuter`, `Pool` the worker processes and the parent that receives what they send; the others
-- prove.
pub mod Results
pub mod Pool
pub mod Record
pub mod Liberal
pub mod Output
pub mod Runs
pub mod Sources
pub mod Best
pub mod Cycle
pub mod Cache
pub mod Fresh
pub mod Memory
