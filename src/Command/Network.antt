-- ===== src/Command/Network.antt =====
-- The network part of the two federates: the senders of federate__vcg
-- (lf-src/fed-gen/AutowareFederated/src/federate__vcg.lf), the receivers of federate__bridge
-- (…/federate__bridge.lf) and the publishers of lf-src/bridge_interface/bridge_interface_main.lf.
-- The ROS 2 serializer and the runtime that takes a frame off a socket are parameters.
use text.Mathlib.Text.{◌==◌}
use lf_autoware.Base.{ℕ, String, Option, none, some, List, [], ◌∷◌, if◌then◌else◌}
use lf_autoware.Federate.Triggers.{ActionPtr, globals, initialize_triggers_for_federate}
use lf_autoware.Federate.Table.{bridge}
use lf_autoware.Command.Ports.{
  Port, control_cmd, gear_cmd, turn_indicators_cmd, hazard_lights_cmd, Log, append,
}

-- net_common.h
abbrev pub msg_type_p2p_message : ℕ
msg_type_p2p_message = 17

-- The arguments of `lf_send_message` that the receiver gets to see.
pub record Frame : Type 0 where
  pub message_type : ℕ
  pub port : ℕ
  pub federate : ℕ
  pub message : List ℕ

-- The second argument of `lf_send_message` in NetworkSender_0 to NetworkSender_3, and the output
-- of `vcg` that is connected to the sender.
abbrev pub port_id : Port → ℕ
port_id control_cmd = 0
port_id gear_cmd = 1
port_id turn_indicators_cmd = 2
port_id hazard_lights_cmd = 3

-- The reactor instances of NetworkReceiver_1 to NetworkReceiver_4 by their self structs, and the
-- input of `bridge` that each is connected to.
abbrev pub receiver : String → Option Port
receiver self =
    if self == "federate__bridge_nr_federate__bridge_self"
    then some control_cmd
    else if self == "federate__bridge_nr_federate__bridge_0_self"
    then some gear_cmd
    else if self == "federate__bridge_nr_federate__bridge_1_self"
    then some turn_indicators_cmd
    else if self == "federate__bridge_nr_federate__bridge_2_self"
    then some hazard_lights_cmd
    else none

-- The action table of federate__bridge once its preamble has run.
abbrev pub bridge_actions : List ActionPtr
bridge_actions = (initialize_triggers_for_federate bridge (globals bridge)).action_table

-- Which action the runtime schedules for a frame, and with which bytes, given the action table and
-- the identity of the federate.
abbrev pub Routing : Type 0
Routing = List ActionPtr → ℕ → Frame → Option (String × List ℕ)

module _ (M : Port → Type 0) (serialize : (p : Port) → M p → List ℕ) where
  -- if (!msg[0]->is_present) return; … lf_send_message(…)
  unfoldable pub network_sender : (p : Port) → Option (M p) → List Frame
  network_sender p none = []
  network_sender p (some m) =
      record {
        message_type = msg_type_p2p_message;
        port = port_id p;
        federate = 45;
        message = serialize p m;
      }
      ∷ []

-- The reactions of `bridge_interface` to its inputs: each publishes on the topic of the input.
unfoldable pub publish : (M : Port → Type 0) (p : Port) → M p → Log M → Log M
publish M p m published = append M p m published

module _ (M : Port → Type 0) (deserialize : (p : Port) → List ℕ → M p → M p)
    (blank : (p : Port) → M p) where
  -- MessageT deserialized_message = MessageT(); deserialize_message(…, &deserialized_message);
  unfoldable pub network_receiver : (p : Port) → List ℕ → M p
  network_receiver p bytes = deserialize p bytes (blank p)

  -- The reaction to a scheduled action: the receiver, and the input that it is connected to.
  abbrev pub accept : Option (String × List ℕ) → Log M → Log M
  accept none published = published
  accept (some (self, bytes)) published = elim (receiver self) [
    | none ↦ published
    | some p ↦ publish M p (network_receiver p bytes) published
  ]

  -- A frame arrives at federate__bridge.
  unfoldable pub deliver : Routing → Frame → Log M → Log M
  deliver route f published = accept (route bridge_actions bridge.fed_id f) published
