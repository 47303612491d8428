-- ===== src/Net.antt =====
-- src/net: the program over a network of servers.
pub mod Port
pub mod Json
pub mod Permuters
pub mod Wire
pub mod Posts
pub mod Server
pub mod Evaluator
pub mod Client
pub mod Relay
pub mod Results
pub mod Exchange
