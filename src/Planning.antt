-- ===== src/Planning.antt =====
-- The trajectories from scenario_selector to velocity_smoother: the two reactors
-- (lf-src/scenario_selector/scenario_selector_main.lf, lf-src/velocity_smoother/
-- velocity_smoother_main.lf), the sender of federate__ss.lf and the receiver of federate__vs.lf
-- (lf-src/fed-gen/AutowareFederated/src). The wrapped nodes are libraries: their methods are
-- parameters, which change the rest of the node and may raise messages, never withdraw one.
pub mod System
pub mod Delivery
pub mod Complete
use text.Mathlib.Text.{◌==◌}
use lf_autoware.Base.{ℕ, String, Bool, Option, none, some, List, [], ◌∷◌, if◌then◌else◌}
use lf_autoware.Slots.{Slot, forward, raise}
use lf_autoware.Federate.Triggers.{ActionPtr, globals, initialize_triggers_for_federate}
use lf_autoware.Federate.Table.{vs}
use lf_autoware.Command.Network.{Frame, msg_type_p2p_message, Routing}

-- The node of scenario_selector.
pub record Selector (T S N : Type 0) : Type 0 where
  pub trajectory : Slot T
  pub scenario : Slot S
  pub rest : N

-- The node of velocity_smoother.
pub record Smoother (T K : Type 0) : Type 0 where
  pub trajectory : Slot T
  pub rest : K

module _ {T S N : Type 0} (on_timer : N → N × (Option T × Option S)) where
  -- The reaction of scenario_selector to its timer: what it sets trajectory_out and scenario_out to.
  unfoldable pub selector_reaction : Selector T S N → (Option T × Option S) × Selector T S N
  unfolding forward
  selector_reaction node0 =
      let (rest, raised) = on_timer node0.rest in
      let node1 : Selector T S N = record {
        trajectory = raise raised.0 node0.trajectory;
        scenario = raise raised.1 node0.scenario;
        rest = rest;
      } in
      let (trajectory, slot1) = forward node1.trajectory in
      let node2 = record node1 { trajectory = slot1 } in
      let (scenario, slot2) = forward node2.scenario in
      ((trajectory, scenario), record node2 { scenario = slot2 })

module _ {T K : Type 0} (on_current_trajectory : T → K → K × Option T) where
  -- The reaction of velocity_smoother to trajectory_in: what it sets trajectory_out to.
  unfoldable pub smoother_reaction : T → Smoother T K → Option T × Smoother T K
  unfolding forward
  smoother_reaction message node0 =
      let (rest, raised) = on_current_trajectory message node0.rest in
      let (trajectory, slot) = forward (raise raised node0.trajectory) in
      (trajectory, record { trajectory = slot; rest = rest })

-- The action table of federate__vs once its preamble has run.
abbrev pub vs_actions : List ActionPtr
vs_actions = (initialize_triggers_for_federate vs (globals vs)).action_table

module _ {T : Type 0} (serialize : T → List ℕ) where
  -- NetworkSender_0 of federate__ss
  unfoldable pub trajectory_sender : Option T → List Frame
  trajectory_sender none = []
  trajectory_sender (some m) =
      record { message_type = msg_type_p2p_message; port = 0; federate = 32; message = serialize m }
      ∷ []

-- The self struct of NetworkReceiver_0 of federate__vs, whose output is connected to trajectory_in
-- by way of _vstrajectory_in.
abbrev pub is_receiver : String → Bool
is_receiver self = self == "federate__vs_nr_federate__vs_self"

module _ {T : Type 0} (deserialize : List ℕ → T → T) (blank : T) where
  -- MessageT deserialized_message = MessageT(); deserialize_message(…, &deserialized_message);
  unfoldable pub trajectory_receiver : List ℕ → T
  trajectory_receiver bytes = deserialize bytes blank

  abbrev received_by : Option (String × List ℕ) → Option T
  received_by none = none
  received_by (some (self, bytes)) =
      if is_receiver self then some (trajectory_receiver bytes) else none

  -- What trajectory_in is set to when a frame arrives at federate__vs.
  unfoldable pub arriving : Routing → Frame → Option T
  arriving route f = received_by (route vs_actions vs.fed_id f)
