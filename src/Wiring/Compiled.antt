-- ===== src/Wiring/Compiled.antt =====
-- The generated federation as one system of connections: those inside each federate, and those over
-- the network, where the runtime schedules the action of the port that a sender names.

use text.Mathlib.Text.{◌==◌}
use lf_autoware.Base.{
  ℕ, String, ◌<>◌, Option, none, some, List, [], ◌∷◌, ◌++◌, get_elem?, if◌then◌else◌,
}
use lf_autoware.Federate.Preamble.{Preamble}
use lf_autoware.Federate.Triggers.{ActionPtr, globals, initialize_triggers_for_federate}
use lf_autoware.Federate.Table.{federation}
use lf_autoware.Command.Network.{Frame, msg_type_p2p_message, Routing}
use lf_autoware.Wiring.{Reactor, reactor, Instances, no_more, new, Pin, Edge, edges}
use lf_autoware.Wiring.Drift.{first_instance}
use lf_autoware.Wiring.Network.{Send, Federate}
use lf_autoware.Wiring.Generated.{generated}

abbrev pub federate_name : Federate → String
federate_name f = "federate__" <> (first_instance f).0

-- The instance whose self struct has the given name.
abbrev pub with_self : String → Instances → String → Option String
with_self federate no_more self = none
with_self federate (new i r is) self =
    let rest = with_self federate is self in
    if federate <> "_" <> i <> "_self" == self then some i else rest

abbrev pub instances_of : Reactor → Instances
instances_of (reactor n ports is cs) = is

-- The frame of a sender, without its message.
abbrev pub frame : Send → Frame
frame s = record {
  message_type = msg_type_p2p_message;
  port = s.port;
  federate = s.federate;
  message = [];
}

-- From the input of the sender to the output of the receiver whose action is scheduled.
abbrev pub to_receiver : Federate → Send → Federate → Option (String × List ℕ) → List Edge
to_receiver f s g none = []
to_receiver f s g (some (self, bytes)) =
    elim (with_self (federate_name g) (instances_of g.main) self) [
      | none ↦ []
      | some r ↦
          (
            record { path = federate_name f ∷ s.sender ∷ []; port = "msg" },
            record { path = federate_name g ∷ r ∷ []; port = "msg" },
          )
          ∷ []
    ]

abbrev pub action_table : Preamble → List ActionPtr
action_table p = (initialize_triggers_for_federate p (globals p)).action_table

abbrev pub to_federate : Routing → Federate → Send → Option Federate → Option Preamble → List Edge
to_federate route f s (some g) (some p) =
    to_receiver f s g (route (action_table p) p.fed_id (frame s))
to_federate route f s _ _ = []

abbrev pub send_edges : Routing → Federate → List Send → List Edge
send_edges route f [] = []
send_edges route f (s ∷ ss) =
    to_federate route f s (get_elem? generated s.federate) (get_elem? federation s.federate)
    ++ send_edges route f ss

abbrev pub federate_edges : Routing → List Federate → List Edge
federate_edges route [] = []
federate_edges route (f ∷ fs) =
    edges (federate_name f ∷ []) f.main ++ (send_edges route f f.sends ++ federate_edges route fs)

abbrev pub compiled_edges : Routing → List Edge
compiled_edges route = federate_edges route generated

-- Where a pin of the source program is in the generated federation.
abbrev pub located : Pin → Pin
located p = elim p.path [
  | [] ↦ p
  | i ∷ is ↦ record { path = ("federate__" <> i) ∷ i ∷ is; port = p.port }
]
