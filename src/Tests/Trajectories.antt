-- ===== src/Tests/Trajectories.antt =====
-- A run on the path of the trajectories, with numbers as messages.
use mathlib.Core.Option
use lf_autoware.Base.{
  arith, ℕ, ◌≡◌, refl, ◌+◌, none, some, List, [], ◌∷◌, ◌++◌, ◌==◌, false, if◌then◌else◌,
}
use lf_autoware.Slots.{Slot}
use lf_autoware.Federate.Triggers.{read, globals, initialize_triggers_for_federate}
use lf_autoware.Command.Ports.{to_list}
use lf_autoware.Command.Network.{Routing}
use lf_autoware.Command.Delivery.Flight.{IsRouting}
use lf_autoware.Planning.{smoother_reaction, trajectory_receiver, arriving}
use lf_autoware.Planning.System.{
  System, tick, send, take, IsInitial, Nodes, timer, sender, selector_callback, Steps, stop, next,
}
use lf_autoware.Planning.Delivery.{flying, raised-eq-received}
use lf_autoware.Planning.Complete.{received-eq-raised}

abbrev route : Routing
route table id f =
    if f.federate == id then Option.map (λ self. (self, f.message)) (read table f.port) else none

route-IsRouting : IsRouting route
route-IsRouting table id port bytes = ground arith

abbrev deserialize : List ℕ → ℕ → ℕ
deserialize [] into = into
deserialize (b ∷ bs) into = b

-- scenario_selector raises a trajectory at every tick, and velocity_smoother adds one to it.
abbrev nodes : Nodes ℕ ℕ ℕ ℕ
nodes = record {
  on_timer = λ n. (n + 1, (some n, none));
  on_current_trajectory = λ m k. (k, some (m + 1));
  serialize = λ m. m ∷ [];
  deserialize = deserialize;
  blank = 0;
  route = route;
}

abbrev unset : Slot ℕ
unset = record { value = 0; is_set = false }

abbrev start : System ℕ ℕ ℕ ℕ
start = record {
  selector = record { trajectory = unset; scenario = unset; rest = 7 };
  output = none;
  channel = [];
  smoother = record { trajectory = unset; rest = 0 };
  raised = [];
  received = [];
  smoothed = [];
  outputs = [];
}

start-IsInitial : IsInitial start
start-IsInitial = record {
  trajectory = refl;
  smoothing = refl;
  output = refl;
  channel = refl;
  raised = refl;
  received = refl;
  smoothed = refl;
  outputs = refl;
}

-- A tick whose trajectory is sent, and a callback of scenario_selector.
abbrev reached : System ℕ ℕ ℕ ℕ
reached =
    let s = send nodes.serialize (tick nodes.on_timer start) in
    record s { selector = record s.selector { rest = 50 } }

reached-Steps : Steps nodes start reached
reached-Steps = next (next (next stop (timer refl)) sender) (selector_callback (λ n. 50))

raised-eq-received_example :
    (reached.raised ≡ reached.received ++ (flying nodes reached.channel ++ to_list reached.output))
    × (reached.outputs ≡ reached.smoothed)
raised-eq-received_example =
    raised-eq-received nodes route-IsRouting (λ m into. refl) start reached start-IsInitial
      reached-Steps

received-eq-raised_example :
    (u : System ℕ ℕ ℕ ℕ) × Steps nodes reached u
    × (u.raised ≡ reached.raised)
    × (u.received ≡ reached.raised)
received-eq-raised_example =
    received-eq-raised nodes route-IsRouting (λ m into. refl) start reached start-IsInitial
      reached-Steps

-- The trajectory comes in at velocity_smoother, which sends it on as it smooths it.
abbrev received : System ℕ ℕ ℕ ℕ
received =
    take nodes.on_current_trajectory
      (arriving deserialize 0 route
        (record { message_type = 17; port = 0; federate = 32; message = 7 ∷ [] }))
      (record reached { channel = [] })

received_outputs : (received.received ≡ 7 ∷ []) × (received.outputs ≡ 8 ∷ [])
unfolding arriving trajectory_receiver smoother_reaction initialize_triggers_for_federate globals
received_outputs = (refl, refl)
