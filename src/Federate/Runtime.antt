-- ===== src/Federate/Runtime.antt =====
-- The state of a federate that its preamble writes, and the runtime calls that it makes.
-- The fields are those of `federate_instance_t` (lf-src/fed-gen/AutowareFederated/include/core/
-- federated/federate.h) that the preambles touch. The runtime itself is no code of the
-- repository: it is the parameter `Runtime`, and the rest of its state the parameter `O`.
use lf_autoware.Base.{ℕ, suc, zero, String, Option, none, some, List, [], ◌∷◌, ◌++◌, ℤ, negsuc, set}

-- The compile definition NUMBER_OF_FEDERATES of every src/federate__*.lf.
abbrev pub number_of_federates : ℕ
number_of_federates = 46

-- `_lf_my_fed_id` and the fields of `_fed`.
pub record Fed : Type 0 where
  pub my_fed_id : ℕ
  pub number_of_inbound_p2p_connections : ℕ
  pub number_of_outbound_p2p_connections : ℕ
  pub sockets_for_inbound_p2p_connections : List ℤ
  pub sockets_for_outbound_p2p_connections : List ℤ

-- The runtime calls of `_lf_executable_preamble`.
pub data Call : Type 0 where
  mutex_init : Call  -- lf_mutex_init(&lf_outbound_socket_mutex)
  init_shutdown_mutex : Call
  cond_init : Call  -- lf_cond_init(&lf_port_status_changed, &env->mutex)
  connect_to_rti : String → ℕ → Call
  create_server : ℕ → Call
  connect_to_federate : ℕ → Call
  thread_create : Call  -- lf_thread_create(…, lf_handle_p2p_connections_from_federates, env)

-- What a call does: `none` is an exit of the process, by which a failing call ends.
abbrev pub Runtime : Type 0 → Type 0
Runtime O = Call → O → Fed → Option (O × Fed)

-- `calls` records each call with the state in which it was made.
pub record World (O : Type 0) : Type 0 where
  pub fed : Fed
  pub os : O
  pub calls : List (Call × Fed)

pub data Outcome (O : Type 0) : Type 0 where
  returned : World O → Outcome O
  exited : World O → Outcome O

module _ {O : Type 0} where
  infixl 5 ◌>>◌
  abbrev pub then_run : Outcome O → (World O → Outcome O) → Outcome O
  then_run (returned w) k = k w
  then_run (exited w) k = exited w

  abbrev pub ◌>>◌ : (World O → Outcome O) → (World O → Outcome O) → World O → Outcome O
  ◌>>◌ m k w = then_run (m w) k

  abbrev pub assign : (Fed → Fed) → World O → Outcome O
  assign f w = returned (record w { fed = f w.fed })

  abbrev pub finish : World O → Option (O × Fed) → Outcome O
  finish w none = exited w
  finish w (some (os, fed)) = returned (record w { os = os; fed = fed })

  unfoldable pub call : Runtime O → Call → World O → Outcome O
  call rt c w = finish (record w { calls = w.calls ++ (c, w.fed) ∷ [] }) (rt c w.os w.fed)

-- for (int i = 0; i < NUMBER_OF_FEDERATES; i++) { sockets[i] = -1; }
unfoldable pub clear_from : ℕ → ℕ → List ℤ → List ℤ
clear_from zero i sockets = sockets
clear_from (suc rounds) i sockets = clear_from rounds (suc i) (set sockets i (negsuc 0))
