-- ===== src/Net/Server/Types.antt =====
-- net/server.py: the messages of the server's queues.
use decomp_permuter_psyq.Prelude.{ℕ, Bool, Option}
use decomp_permuter_psyq.Prelude.Int.{ℤ}
use decomp_permuter_psyq.Text.{Text}
use decomp_permuter_psyq.Net.Json.{Fields}
use decomp_permuter_psyq.Net.Permuters.{PermuterData}

pub record Client : Type 0 where
  pub id : Text
  pub nickname : Text

-- `F` is the type of the times and of the other floating-point numbers. The fields are in the order of
-- the dataclasses.
pub data Activity (F : Type 0) : Type 0 where
  add_permuter : ℤ → F → Client → PermuterData F → Activity F
  remove_permuter : ℤ → Activity F
  work : ℤ → ℕ → F → ℤ → Activity F
  immediate_disconnect : ℤ → Client → Text → Activity F
  disconnect : ℤ → Activity F
  perm_init_fail : Text → Text → Activity F
  perm_init_success : Text → ℤ → Text → ℤ → Activity F
  work_done : Text → ℤ → Fields F → ℤ → Option Text → Activity F
  need_more_work : Activity F
  net_thread_disconnected : Bool → Option Text → Activity F
  heartbeat : Activity F
  shutdown : Activity F

pub data Output (F : Type 0) : Type 0 where
  init_fail : ℤ → Text → Output F
  init_success : ℤ → ℤ → ℤ → Text → Output F
  disconnect : ℤ → Output F
  need_more_work : Output F
  work : ℤ → F → ℤ → Fields F → Option Text → Output F
  shutdown : Output F

pub data IoMessage : Type 0 where
  connect : Text → Client → IoMessage
  disconnect : Text → IoMessage
  immediate_disconnect : Text → Client → IoMessage
  user_remove_permuter : IoMessage
  work_done : Option ℤ → Bool → IoMessage

pub data IoGlobalMessage : Type 0 where
  reconnect shutdown : IoGlobalMessage
  server_failed : Bool → Option Text → IoGlobalMessage

-- what is sent to the evaluator
pub data Command (F : Type 0) : Type 0 where
  add : Text → PermuterData F → Command F
  remove : Text → Command F
  work : Text → ℕ → ℤ → Command F
