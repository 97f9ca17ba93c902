-- ===== src/Federate/Rendezvous.antt =====
-- The starts of the 46 federates side by side: after lf_connect_to_rti, each makes the peer-to-peer
-- calls of its preamble one after the other. By net_common.h a federate asks the RTI for the address
-- of another, which the RTI knows once the other has created its server, then connects, sends its
-- identity and expects MSG_TYPE_ACK in response. The response comes from the thread
-- lf_handle_p2p_connections_from_federates of the other federate, which by the preamble listens for
-- these connections and lives until all of them are there. So lf_connect_to_federate waits for that
-- thread, which has something to listen to only if the server was created before it. That the
-- thread is given the right number of connections is the matter of Federate/Topology. No other call
-- waits for another federate.
pub mod Served
pub mod Progress
use lf_autoware.Base.{
  ℕ, zero, suc, ◌+◌, ◌≡◌, Bool, true, false, ◌&&◌, ◌||◌, Option, none, some, List, [], ◌∷◌, length,
  set, get_elem?, map, ◌==◌,
}
use lf_autoware.Federate.Runtime.{
  Call, mutex_init, init_shutdown_mutex, cond_init, connect_to_rti, create_server,
  connect_to_federate, thread_create,
}
use lf_autoware.Federate.Preamble.{Preamble}
use lf_autoware.Federate.Table.{federation}

-- The calls that each federate has yet to make, which federates have a server, and which have a
-- thread that accepts connections to it.
pub record Starting : Type 0 where
  pub remaining : List (List Call)
  pub serving : ℕ → Bool
  pub accepting : ℕ → Bool

abbrev pub can_make : (ℕ → Bool) → Call → Bool
can_make accepting (connect_to_federate j) = accepting j
can_make accepting mutex_init = true
can_make accepting init_shutdown_mutex = true
can_make accepting cond_init = true
can_make accepting (connect_to_rti h n) = true
can_make accepting (create_server n) = true
can_make accepting thread_create = true

abbrev pub creates_server : Call → Bool
creates_server (create_server n) = true
creates_server (connect_to_federate j) = false
creates_server mutex_init = false
creates_server init_shutdown_mutex = false
creates_server cond_init = false
creates_server (connect_to_rti h n) = false
creates_server thread_create = false

abbrev pub creates_thread : Call → Bool
creates_thread thread_create = true
creates_thread (create_server n) = false
creates_thread (connect_to_federate j) = false
creates_thread mutex_init = false
creates_thread init_shutdown_mutex = false
creates_thread cond_init = false
creates_thread (connect_to_rti h n) = false

-- Federate `i` makes the call `c` and has `cs` left.
abbrev pub made : ℕ → Call → List Call → Starting → Starting
made i c cs s = record {
  remaining = set s.remaining i cs;
  serving = λ k. s.serving k || (creates_server c && k == i);
  accepting = λ k. s.accepting k || (creates_thread c && s.serving k && k == i);
}

pub data Step (s : Starting) : Starting → Type 0 where
  make :
      (i : ℕ) (c : Call) (cs : List Call)
      → get_elem? s.remaining i ≡ some (c ∷ cs)
      → can_make s.accepting c ≡ true
      → Step s (made i c cs s)

pub data Steps (s : Starting) : Starting → Type 0 where
  stop : Steps s s
  next : {t u : Starting} → Steps s t → Step t u → Steps s u

abbrev pub steps : {s t : Starting} → Steps s t → ℕ
steps stop = 0
steps (next r x) = suc (steps r)

-- How many calls are left in all.
abbrev pub calls_left : List (List Call) → ℕ
calls_left [] = 0
calls_left (cs ∷ css) = length cs + calls_left css

-- Every federate has connected to the RTI, and none has a server.
abbrev pub initial : Starting
initial = record {
  remaining = map (λ (p : Preamble). p.connections) federation;
  serving = λ k. false;
  accepting = λ k. false;
}
