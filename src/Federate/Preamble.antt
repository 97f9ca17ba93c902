-- ===== src/Federate/Preamble.antt =====
-- `_lf_executable_preamble` of the generated preambles
-- (lf-src/fed-gen/AutowareFederated/src/include/_federate__*_preamble.h). The 46 files have one
-- text but for the values in `Preamble`, which Federate/Table has for each of them.
pub mod Defs
mod Sockets
mod Documented
pub mod Start
use lf_autoware.Base.{ℕ, String, List, [], ◌∷◌}
use lf_autoware.Federate.Runtime.{
  Runtime, World, Outcome, Call, returned, mutex_init, init_shutdown_mutex, cond_init,
  connect_to_rti, number_of_federates, assign, call, clear_from, ◌>>◌,
}

-- One entry of the action table: the `_lf_networkMessage` of a receiver's self struct, and the
-- federate that its messages come from.
pub record NetworkAction : Type 0 where
  pub self : String
  pub source_id : ℕ

-- One entry of `staa_lst`, with the indices into `_lf_action_table` of its assignments, and the number
-- of pointers that the malloc for `actions` asks for.
pub record StaaInit : Type 0 where
  pub staa : ℕ
  pub num_actions : ℕ
  pub allocated : ℕ
  pub action_indices : List ℕ

pub record Preamble : Type 0 where
  pub fed_id : ℕ
  pub inbound : ℕ
  pub outbound : ℕ
  -- the runtime calls behind lf_connect_to_rti
  pub connections : List Call
  -- _lf_action_delay_table[…], _lf_action_table[…] and _lf_action_table_size
  pub action_delay_table_length : ℕ
  pub action_table_length : ℕ
  pub action_table_size : ℕ
  pub zero_delay_cycle_action_table_size : ℕ
  pub num_network_input_reactions : ℕ
  pub num_port_absent_reactions : ℕ
  pub network_actions : List NetworkAction
  -- staa_lst[…], staa_lst_size, and the entries that staa_initialization writes
  pub staa_lst_length : ℕ
  pub staa_lst_size : ℕ
  pub staa_lst : List StaaInit
  -- upstream and downstream federates that lf_send_neighbor_structure_to_RTI reports
  pub num_upstream : ℕ
  pub num_downstream : ℕ

-- The assignments to `_lf_my_fed_id` and `_fed`, and the two loops.
pub set_up_fed : {O : Type 0} → Preamble → World O → Outcome O
set_up_fed p =
    assign (λ f. record f { my_fed_id = p.fed_id })
    >> assign (λ f. record f { number_of_inbound_p2p_connections = p.inbound })
    >> assign (λ f. record f { number_of_outbound_p2p_connections = p.outbound })
    >> assign (λ f. record f {
      sockets_for_inbound_p2p_connections =
          clear_from number_of_federates 0 f.sockets_for_inbound_p2p_connections;
    })
    >> assign (λ f. record f {
      sockets_for_outbound_p2p_connections =
          clear_from number_of_federates 0 f.sockets_for_outbound_p2p_connections;
    })

module _ {O : Type 0} (rt : Runtime O) where
  pub call_all : List Call → World O → Outcome O
  call_all [] = returned
  call_all (c ∷ cs) = call rt c >> call_all cs

  unfoldable pub executable_preamble : Preamble → World O → Outcome O
  executable_preamble p =
      call rt mutex_init
      >> call rt init_shutdown_mutex
      >> call rt cond_init
      >> set_up_fed p
      >> call rt (connect_to_rti "localhost" 0)
      >> call_all p.connections
