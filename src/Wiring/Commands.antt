-- ===== src/Wiring/Commands.antt =====
-- The vehicle commands and the trajectory take the same way in all three programs.
use lf_autoware.Base.{◌≡◌, refl, ◌↔◌, String, some, List, [], ◌∷◌, ◌++◌, All}
use lf_autoware.Command.Ports.{Port, control_cmd, gear_cmd, turn_indicators_cmd, hazard_lights_cmd}
use lf_autoware.Wiring.{Reactor, Pin, edges, follow}
use lf_autoware.Wiring.Reach.{Leads, follow-one}
use lf_autoware.Wiring.Programs.{autoware_federated, autoware_universe, autoware_mono}

-- A program, and the instances that lead to its vehicle_cmd_gate and to its planners.
pub record Layout : Type 0 where
  pub program : Reactor
  pub control : List String
  pub planning : List String

abbrev pub federated : Layout
federated = record { program = autoware_federated; control = []; planning = [] }

abbrev pub universe : Layout
universe = record {
  program = autoware_universe;
  control = "control" ∷ [];
  planning = "planning" ∷ [];
}

abbrev pub mono : Layout
mono = record { program = autoware_mono; control = "control" ∷ []; planning = "planning" ∷ [] }

abbrev pub layouts : List Layout
layouts = federated ∷ universe ∷ mono ∷ []

abbrev pub output_name : Port → String
output_name control_cmd = "control_cmd"
output_name gear_cmd = "gear_cmd"
output_name turn_indicators_cmd = "turn_indicators_cmd"
output_name hazard_lights_cmd = "hazard_lights_cmd"

abbrev pub input_name : Port → String
input_name control_cmd = "control_cmd_in"
input_name gear_cmd = "gear_cmd_in"
input_name turn_indicators_cmd = "turn_indicators_cmd_in"
input_name hazard_lights_cmd = "hazard_lights_cmd_in"

abbrev pub instance_pin : List String → String → String → Pin
instance_pin path i port = record { path = path ++ i ∷ []; port = port }

-- A message that leaves the first pin ends at the second, and nowhere else.
abbrev pub EndsAt : Layout → Pin → Pin → Type 0
EndsAt l p q = (r : Pin) → Leads (edges [] l.program) p r ↔ (r ≡ q)

pub record IsLaidOut (l : Layout) : Type 0 where
  pub commands :
      (p : Port)
      → EndsAt l
          (instance_pin l.control "vcg" (output_name p))
          (instance_pin [] "bridge" (input_name p))
  pub trajectory :
      EndsAt l
        (instance_pin l.planning "ss" "trajectory_out")
        (instance_pin l.planning "vs" "trajectory_in")

abbrev Goes : Layout → Pin → Pin → Type 0
Goes l p q = follow 4 (edges [] l.program) p ≡ some (q ∷ [])

abbrev Commands : Layout → Port → Type 0
Commands l p =
    Goes l (instance_pin l.control "vcg" (output_name p)) (instance_pin [] "bridge" (input_name p))

each_port :
    (P : Port → Type 0)
    → P control_cmd
    → P gear_cmd
    → P turn_indicators_cmd
    → P hazard_lights_cmd
    → (p : Port) → P p
each_port P a b c d control_cmd = a
each_port P a b c d gear_cmd = b
each_port P a b c d turn_indicators_cmd = c
each_port P a b c d hazard_lights_cmd = d

laid_out :
    (l : Layout)
    → ((p : Port) → Commands l p)
    → Goes l
        (instance_pin l.planning "ss" "trajectory_out")
        (instance_pin l.planning "vs" "trajectory_in")
    → IsLaidOut l
laid_out l f g = record {
  commands = λ p. follow-one (edges [] l.program) 4 _ _ (f p);
  trajectory = follow-one (edges [] l.program) 4 _ _ g;
}

-- In each of the three programs, through the reactors of lf-src/Packages where it has them, a message
-- that leaves an output of vehicle_cmd_gate ends at the input of bridge_interface for the same
-- command and nowhere else, and a trajectory of scenario_selector at velocity_smoother alone.
pub layouts-IsLaidOut : All IsLaidOut layouts
unfolding follow
layouts-IsLaidOut = (
  laid_out federated (each_port (Commands federated) refl refl refl refl) refl,
  (
    laid_out universe (each_port (Commands universe) refl refl refl refl) refl,
    (laid_out mono (each_port (Commands mono) refl refl refl refl) refl, tt),
  ),
)
