-- ===== src/Tests/Wirings.antt =====
-- The connections of the programs at concrete ports.
use mathlib.Core.Option
use mathlib.Core.List.{Memᴰ}
use lf_autoware.Base.{◌≡◌, refl, ◌↔◌, none, [], ◌∷◌, ◌==◌, arith, if◌then◌else◌}
use lf_autoware.Federate.Triggers.{read}
use lf_autoware.Command.Network.{Routing}
use lf_autoware.Command.Delivery.Flight.{IsRouting}
use lf_autoware.Wiring.{Pin, Edge, edges}
use lf_autoware.Wiring.Reach.{Leads, follow-Leads}
use lf_autoware.Wiring.Programs.{autoware_mono}
use lf_autoware.Wiring.Compiled.{compiled_edges, located}
use lf_autoware.Wiring.Refinement.{compiled-connection}

abbrev route : Routing
route table id f =
    if f.federate == id then Option.map (λ self. (self, f.message)) (read table f.port) else none

route-IsRouting : IsRouting route
route-IsRouting table id port bytes = ground arith

abbrev trajectory : Edge
trajectory = (
  record { path = "ss" ∷ []; port = "trajectory_out" },
  record { path = "vs" ∷ []; port = "trajectory_in" },
)

abbrev smoother_input : Pin
smoother_input = record { path = "federate__vs" ∷ "vs" ∷ []; port = "trajectory_in" }

compiled-connection_example :
    Leads (compiled_edges route) (located trajectory.0) smoother_input
    ↔ (smoother_input ≡ located trajectory.1)
compiled-connection_example =
    compiled-connection route route-IsRouting 4 trajectory refl smoother_input

abbrev gate_output : Pin
gate_output = record { path = "control" ∷ "vcg" ∷ []; port = "gear_cmd" }

abbrev bridge_input : Pin
bridge_input = record { path = "bridge" ∷ []; port = "gear_cmd_in" }

mono_gear_command :
    Memᴰ bridge_input (bridge_input ∷ []) ↔ Leads (edges [] autoware_mono) gate_output bridge_input
unfolding lf_autoware.Wiring.follow
mono_gear_command =
    follow-Leads (edges [] autoware_mono) 3 gate_output (bridge_input ∷ []) refl bridge_input
