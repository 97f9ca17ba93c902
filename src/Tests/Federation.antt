-- ===== src/Tests/Federation.antt =====
-- Instances of the theorems on the tables and on the federation.
use lf_autoware.Base.{
  All, suc, ℕ, ◌+◌, false, ◌≡◌, refl, ◌%◌, ◌/◌, ◌↔◌, true, none, some, List, [], ◌∷◌, all, length,
  get_elem?, arith,
}
use lf_autoware.Federate.Preamble.{NetworkAction, Preamble, executable_preamble}
use lf_autoware.Federate.Neighbor.{
  buffer_size, msg_type_neighbor_structure, msg_type_neighbor_structure_header_size,
  send_neighbor_structure_to_rti,
}
use lf_autoware.Federate.Neighbor.Header.{read_header, read_header-send_neighbor_structure}
use lf_autoware.Federate.Triggers.{globals, initialize_triggers_for_federate}
use lf_autoware.Federate.Triggers.Tables.{IsInitialized, initialize_triggers-IsInitialized}
use lf_autoware.Federate.Triggers.Checked.{
  checked_initialize_triggers, checked_enter_actions, checked_enter_action, checked_staa_entries,
  checked_staa_entry, checked_copy_actions,
}
use lf_autoware.Federate.Topology.Access.{federation-checked}
use lf_autoware.Federate.Table.{bridge, vcg, vs, federation}
use lf_autoware.Federate.Topology.{IsConsistent, federation-IsConsistent}
use lf_autoware.Federate.Topology.Shape.{federation-IsPeer, federation-IsSized}
use lf_autoware.Federate.Topology.Links.{IsFresh, OpensSocket, source_socket_open}
use lf_autoware.Federate.Topology.Whole.{Started, nobody, one_more, opened_to, inbound-opened_to}
use lf_autoware.Federate.Runtime.{
  create_server, thread_create, connect_to_federate, World, Outcome, returned, exited,
}
use lf_autoware.Federate.Preamble.Defs.{IsPeer, Ensures, Ended}
use lf_autoware.Federate.Preamble.Start.{executable_preamble-Ensures}
use lf_autoware.Federate.Topology.Waits.{waits_for_actions, initialize_triggers_waits}
use lf_autoware.Federate.Rendezvous.{
  Starting, made, Steps, stop, next, make, steps, calls_left, initial, can_make,
}
use lf_autoware.Federate.Rendezvous.Progress.{Progress, starts-Progress}
use lf_autoware.Tests.Start.{all_succeed, all_succeed-IsDocumented, fresh}

initialize_triggers-IsInitialized_example :
    IsInitialized bridge (initialize_triggers_for_federate bridge (globals bridge))
initialize_triggers-IsInitialized_example =
    initialize_triggers-IsInitialized bridge (federation-IsSized 45 bridge refl)

abbrev encode_int32 : ℕ → List ℕ
encode_int32 v = v % 256 ∷ v / 256 % 256 ∷ v / 65536 % 256 ∷ v / 16777216 % 256 ∷ []

-- A federate with neighbors to report, which none of the 46 has.
abbrev busy : Preamble
busy = record vcg { num_upstream = 300; num_downstream = 2 }

read_header-send_neighbor_structure_example :
    (read_header (send_neighbor_structure_to_rti encode_int32 busy).0
      ≡ some (msg_type_neighbor_structure, 300, 2))
    × ((send_neighbor_structure_to_rti encode_int32 busy).1
        ≡ msg_type_neighbor_structure_header_size)
    × (((send_neighbor_structure_to_rti encode_int32 busy).1 ≡ buffer_size busy)
        ↔ ((busy.num_upstream ≡ 0) × (busy.num_downstream ≡ 0)))
read_header-send_neighbor_structure_example =
    read_header-send_neighbor_structure encode_int32 (λ v. refl) busy (omega arith) (omega arith)

federation-IsConsistent_example : IsConsistent federation bridge
federation-IsConsistent_example = federation-IsConsistent 45 bridge refl

-- The turn indicators come to the bridge from federate 39.
abbrev turn_indicators : NetworkAction
turn_indicators = elim (get_elem? bridge.network_actions 2) [
  | some a ↦ a
  | _ ↦ record { self = ""; source_id = 0 }
]

source_socket_open_example :
    (q : Preamble) × (get_elem? federation turn_indicators.source_id ≡ some q)
    × OpensSocket all_succeed q fresh 45
source_socket_open_example =
    source_socket_open all_succeed all_succeed-IsDocumented fresh
      (record { calls = refl; inbound = refl; outbound = refl }) 45 bridge 2 turn_indicators refl
      refl

initialize_triggers_waits_example :
    (length (initialize_triggers_for_federate vs (globals vs)).staa_lst ≡ 1)
    × (all waits_for_actions (initialize_triggers_for_federate vs (globals vs)).staa_lst ≡ true)
initialize_triggers_waits_example = initialize_triggers_waits 32 vs refl

abbrev final : Outcome ℕ → World ℕ
final (returned w) = w
final (exited w) = w

abbrev worlds : List Preamble → List (World ℕ)
worlds [] = []
worlds (q ∷ qs) = final (executable_preamble all_succeed q fresh) ∷ worlds qs

returns :
    (q : Preamble) (Q : World ℕ → Type 0) (o : Outcome ℕ)
    → Ensures Q (Ended all_succeed q) o
    → o ≡ returned (final o)
returns q Q (returned w) h = refl
returns q Q (exited w) (logged, (c, cs, e, n)) = cc

fresh-IsFresh : IsFresh fresh
fresh-IsFresh = record { calls = refl; inbound = refl; outbound = refl }

worlds-Started :
    (qs : List Preamble)
    → ((i : ℕ) (q : Preamble) → get_elem? qs i ≡ some q → All IsPeer q.connections)
    → Started all_succeed qs (worlds qs)
worlds-Started [] f = nobody
worlds-Started (q ∷ qs) f =
    one_more q fresh (final (executable_preamble all_succeed q fresh)) fresh-IsFresh
      (returns q _ (executable_preamble all_succeed q fresh) (
        executable_preamble-Ensures all_succeed all_succeed-IsDocumented q fresh refl refl refl
          (f 0 q refl)))
      (worlds-Started qs (λ i. f (suc i)))

abbrev bridge_world : World ℕ
bridge_world = final (executable_preamble all_succeed bridge fresh)

inbound-opened_to_example :
    bridge_world.fed.number_of_inbound_p2p_connections ≡ opened_to (worlds federation) 45
inbound-opened_to_example =
    inbound-opened_to all_succeed all_succeed-IsDocumented (worlds federation) 45 bridge_world
      (worlds-Started federation federation-IsPeer) refl

federation-checked_example :
    checked_initialize_triggers bridge (globals bridge)
    ≡ some (initialize_triggers_for_federate bridge (globals bridge))
federation-checked_example = federation-checked 45 bridge refl

-- An index past the end of the action table is caught.
abbrev past_the_end : Preamble
past_the_end = record bridge {
  staa_lst_length = 1;
  staa_lst_size = 1;
  staa_lst = record { staa = 0; num_actions = 1; allocated = 1; action_indices = 4 ∷ [] } ∷ [];
}

past_the_end_caught : checked_initialize_triggers past_the_end (globals past_the_end) ≡ none
unfolding checked_initialize_triggers checked_enter_actions checked_enter_action
    checked_staa_entries checked_staa_entry checked_copy_actions globals
past_the_end_caught = refl

-- So is a malloc that is too small, and a `staa_lst` that is too short.
abbrev too_small : Preamble
too_small = record bridge {
  staa_lst =
      record { staa = 0; num_actions = 4; allocated = 3; action_indices = 0 ∷ 1 ∷ 2 ∷ 3 ∷ [] } ∷ [];
}

too_small_caught : checked_initialize_triggers too_small (globals too_small) ≡ none
unfolding checked_initialize_triggers checked_enter_actions checked_enter_action
    checked_staa_entries checked_staa_entry checked_copy_actions globals
too_small_caught = refl

abbrev too_short : Preamble
too_short = record bridge { staa_lst_length = 0 }

too_short_caught : checked_initialize_triggers too_short (globals too_short) ≡ none
unfolding checked_initialize_triggers checked_enter_actions checked_enter_action
    checked_staa_entries checked_staa_entry checked_copy_actions globals
too_short_caught = refl

-- federate__bridge has created its server.
abbrev bridge_serves : Starting
bridge_serves = made 45 (create_server 0) (thread_create ∷ []) initial

bridge_serves-Steps : Steps initial bridge_serves
bridge_serves-Steps = next stop (make 45 (create_server 0) (thread_create ∷ []) refl refl)

starts-Progress_example :
    Progress bridge_serves
    × (steps bridge_serves-Steps + calls_left bridge_serves.remaining
        ≡ calls_left initial.remaining)
starts-Progress_example = starts-Progress bridge_serves bridge_serves-Steps

-- federate__vcg waits for the thread that federate__bridge starts next.
vcg_waits : can_make bridge_serves.accepting (connect_to_federate 45) ≡ false
vcg_waits = refl

vcg_connects :
    can_make (made 45 thread_create [] bridge_serves).accepting (connect_to_federate 45) ≡ true
vcg_connects = refl
