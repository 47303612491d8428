-- ===== src/Net/Server.antt =====
-- net/server.py: a server between the controller and the evaluator. `Types` has the messages, `Ports`
-- writes and reads those of the evaluator, `Controller` those of the controller, `Handle` is the main
-- loop. `Protocol` and `Trace` are about what the main loop sends for a permuter, `Requests`, `Answers`
-- and `Reader` about the controller's requests.
pub mod Types
pub mod Ports
pub mod Handle
pub mod Controller
pub mod Protocol
pub mod Requests
pub mod Answers
pub mod Reader
pub mod Trace
