-- ===== src/Tests/Commands.antt =====
-- A run of the two federates on the path of the commands, with numbers as messages.
use mathlib.Core.Option
use lf_autoware.Base.{
  arith, ℕ, ◌≡◌, refl, ◌+◌, none, some, List, [], ◌∷◌, ◌++◌, ◌==◌, false, if◌then◌else◌,
}
use lf_autoware.Federate.Triggers.{read}
use lf_autoware.Command.Ports.{
  Port, control_cmd, gear_cmd, turn_indicators_cmd, hazard_lights_cmd, output, history, no_log,
  absent, to_list,
}
use lf_autoware.Slots.{Slot, newest}
use lf_autoware.Command.Gate.{Method, reaction_t}
use lf_autoware.Command.Gate.Forward.{pending, reaction_t-newest}
use lf_autoware.Command.Network.{Routing}
use lf_autoware.Command.System.{
  System, tick, send, timer, sender, callback, Steps, stop, next, IsInitial,
}
use lf_autoware.Command.Delivery.Flight.{IsRouting, in_flight}
use lf_autoware.Command.Delivery.Conserved.{raised-eq-accounted}
use lf_autoware.Command.Delivery.Complete.{published-eq-raised}

abbrev Message : Port → Type 0
Message p = ℕ

-- Each tick raises a control and a hazard lights command.
abbrev on_timer : Method Message ℕ
on_timer n = (
  n + 1,
  record { control = some n; gear = none; turn_indicators = none; hazard_lights = some (n + 100) },
)

abbrev publish_status : Method Message ℕ
publish_status n = (n, absent Message)

abbrev serialize : (p : Port) → ℕ → List ℕ
serialize p m = m ∷ 0 ∷ []

abbrev deserialize : (p : Port) → List ℕ → ℕ → ℕ
deserialize p [] into = into
deserialize p (b ∷ bs) into = b

abbrev blank : Port → ℕ
blank p = 0

abbrev route : Routing
route table id f =
    if f.federate == id then Option.map (λ self. (self, f.message)) (read table f.port) else none

abbrev unset : Slot ℕ
unset = record { value = 0; is_set = false }

abbrev start : System Message ℕ
start = record {
  node = record {
    control = unset;
    gear = unset;
    turn_indicators = unset;
    hazard_lights = unset;
    rest = 7;
  };
  outputs = absent Message;
  channel = [];
  raised = no_log Message;
  published = no_log Message;
}

nothing_waits : (p : Port) → pending p start.node ≡ none
nothing_waits control_cmd = refl
nothing_waits gear_cmd = refl
nothing_waits turn_indicators_cmd = refl
nothing_waits hazard_lights_cmd = refl

route-IsRouting : IsRouting route
route-IsRouting table id port bytes = ground arith

start-IsInitial : IsInitial start
start-IsInitial = record {
  waiting = nothing_waits;
  outputs = refl;
  channel = refl;
  raised = refl;
  published = refl;
}

-- A tick, of which the hazard lights are sent and the control command is not, and a callback.
abbrev reached : System Message ℕ
reached =
    let s = send serialize hazard_lights_cmd (tick on_timer publish_status start) in
    record s { node = record s.node { rest = 50 } }

reached-Steps : Steps on_timer publish_status serialize route deserialize blank start reached
reached-Steps = next (next (next stop (timer refl)) (sender hazard_lights_cmd)) (callback (λ n. 50))

reaction_t-newest_example :
    (output Message gear_cmd (reaction_t on_timer publish_status start.node).0
      ≡ newest (output Message gear_cmd (on_timer start.node.rest).1) (pending gear_cmd start.node))
    × (pending gear_cmd (reaction_t on_timer publish_status start.node).1
        ≡ output Message gear_cmd (publish_status (on_timer start.node.rest).0).1)
reaction_t-newest_example = reaction_t-newest on_timer publish_status start.node gear_cmd

raised-eq-accounted_example :
    history Message control_cmd reached.raised
    ≡ history Message control_cmd reached.published
      ++ (in_flight Message serialize route deserialize blank control_cmd reached.channel
          ++ to_list (output Message control_cmd reached.outputs))
raised-eq-accounted_example =
    raised-eq-accounted on_timer publish_status serialize route deserialize blank route-IsRouting
      (λ p m into. refl) (λ n. refl) start reached start-IsInitial reached-Steps control_cmd

published-eq-raised_example :
    (u : System Message ℕ) × (Steps on_timer publish_status serialize route deserialize blank
      reached u)
    × (u.raised ≡ reached.raised)
    × ((p : Port) → history Message p u.published ≡ history Message p reached.raised)
published-eq-raised_example =
    published-eq-raised on_timer publish_status serialize route deserialize blank route-IsRouting
      (λ p m into. refl) (λ n. refl) start reached start-IsInitial reached-Steps
