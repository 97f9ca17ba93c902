-- ===== src/Federate/Preamble/Defs.antt =====
-- What federate.h promises of the runtime calls, and what a start should establish.
use lf_autoware.Base.{
  All, ℕ, zero, suc, ◌≡◌, Bool, true, false, ◌||◌, Option, none, some, List, [], ◌∷◌, ◌++◌, ℤ, pos,
  negsuc, set, length, replicate, ◌==◌,
}
use lf_autoware.Federate.Runtime.{
  number_of_federates, Fed, Call, Runtime, World, Outcome, returned, exited, mutex_init,
  init_shutdown_mutex, cond_init, connect_to_rti, create_server, connect_to_federate, thread_create,
}
use lf_autoware.Federate.Preamble.{Preamble}

-- The federate that a call opens a socket to.
abbrev pub target : Call → Option ℕ
target (connect_to_federate j) = some j
target mutex_init = none
target init_shutdown_mutex = none
target cond_init = none
target (connect_to_rti h n) = none
target (create_server n) = none
target thread_create = none

-- What federate.h says of the calls: each keeps the identity of the federate and the sizes of the
-- arrays, and lf_connect_to_federate sets the element of the remote federate to a socket, which no
-- other call of the preamble does.
pub record IsDocumented {O : Type 0} (rt : Runtime O) : Type 0 where
  pub keeps_id :
      (c : Call) (o o' : O) (f f' : Fed)
      → rt c o f ≡ some (o', f')
      → (f'.my_fed_id ≡ f.my_fed_id)
        × (f'.number_of_inbound_p2p_connections ≡ f.number_of_inbound_p2p_connections)
        × (f'.number_of_outbound_p2p_connections ≡ f.number_of_outbound_p2p_connections)
        × (length f'.sockets_for_inbound_p2p_connections
            ≡ length f.sockets_for_inbound_p2p_connections)
  pub keeps_outbound :
      (c : Call) (o o' : O) (f f' : Fed)
      → rt c o f ≡ some (o', f')
      → target c ≡ none
      → f'.sockets_for_outbound_p2p_connections ≡ f.sockets_for_outbound_p2p_connections
  pub connects :
      (j : ℕ) (o o' : O) (f f' : Fed)
      → rt (connect_to_federate j) o f ≡ some (o', f')
      → (s : ℕ) × (f'.sockets_for_outbound_p2p_connections
          ≡ set f.sockets_for_outbound_p2p_connections j (pos s))

pub record IsNamed (p : Preamble) (f : Fed) : Type 0 where
  pub id : f.my_fed_id ≡ p.fed_id
  pub inbound : f.number_of_inbound_p2p_connections ≡ p.inbound
  pub outbound : f.number_of_outbound_p2p_connections ≡ p.outbound

abbrev pub no_sockets : List ℤ
no_sockets = replicate number_of_federates (negsuc 0)

-- The state in which a call may be made.
abbrev pub IsReady : Preamble → Call × Fed → Type 0
IsReady p (mutex_init, f) = Unit
IsReady p (init_shutdown_mutex, f) = Unit
IsReady p (cond_init, f) = Unit
IsReady p (connect_to_rti h n, f) =
    IsNamed p f
    × (f.sockets_for_inbound_p2p_connections ≡ no_sockets)
    × (f.sockets_for_outbound_p2p_connections ≡ no_sockets)
IsReady p (create_server n, f) = IsNamed p f
IsReady p (connect_to_federate j, f) = IsNamed p f
IsReady p (thread_create, f) = IsNamed p f

-- An element of a socket array that holds a socket.
abbrev pub is_open : List ℤ → ℕ → Bool
is_open [] j = false
is_open (pos s ∷ xs) zero = true
is_open (negsuc s ∷ xs) zero = false
is_open (x ∷ xs) (suc j) = is_open xs j

abbrev pub connects? : List Call → ℕ → Bool
connects? [] j = false
connects? (connect_to_federate k ∷ cs) j = k == j || connects? cs j
connects? (_ ∷ cs) j = connects? cs j

-- The process ended in a call that failed.
abbrev pub Failed : {O : Type 0} → Runtime O → World O → Type 0
Failed {O} rt w =
    (c : Call) × (cs : List (Call × Fed)) × (w.calls ≡ cs ++ (c, w.fed) ∷ [])
    × (rt c w.os w.fed ≡ none)

-- The calls that may follow lf_connect_to_rti.
abbrev pub IsPeer : Call → Type 0
IsPeer (connect_to_rti h n) = ⊥
IsPeer mutex_init = Unit
IsPeer init_shutdown_mutex = Unit
IsPeer cond_init = Unit
IsPeer (create_server n) = Unit
IsPeer (connect_to_federate j) = Unit
IsPeer thread_create = Unit

-- Both ends of a run: by returning, or by an exit.
abbrev pub Ensures : {O : Type 0} → (World O → Type 0) → (World O → Type 0) → Outcome O → Type 0
Ensures Q E (returned w) = Q w
Ensures Q E (exited w) = E w

-- Every call so far was made in a state in which it may be made.
abbrev pub Logged : {O : Type 0} → Preamble → World O → Type 0
Logged p w = All (IsReady p) w.calls

abbrev pub Ended : {O : Type 0} → Runtime O → Preamble → World O → Type 0
Ended rt p w = Logged p w × Failed rt w

-- The identity and the counts are set; `f` says which outbound sockets are open.
pub record IsConnecting {O : Type 0} (p : Preamble) (f : ℕ → Bool) (w : World O) : Type 0 where
  pub logged : Logged p w
  pub named : IsNamed p w.fed
  pub size : length w.fed.sockets_for_outbound_p2p_connections ≡ number_of_federates
  pub opens : (j : ℕ) → is_open w.fed.sockets_for_outbound_p2p_connections j ≡ f j
