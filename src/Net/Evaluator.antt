-- ===== src/Net/Evaluator.antt =====
-- net/evaluator.py: the process in the sandbox. `Ports` reads and writes its messages, `Pool` is the main
-- process with its workers. `Log`, `Workers` and `Counts` are about the local queues, the workers and the
-- work under way, `Invariant`, `Steps`, `Moves` and `Schedules` about every order of the processes' steps.
pub mod Ports
pub mod Pool
pub mod Log
pub mod Workers
pub mod Counts
pub mod Invariant
pub mod Steps
pub mod Moves
pub mod Schedules
