-- ===== src/Command/Gate.antt =====
-- The reactor `vehicle_cmd_gate` (lf-src/vehicle_cmd_gate/vehicle_cmd_gate_main.lf). The Autoware
-- node that it wraps is a library: `on_timer` and `publish_status` are parameters, which change the
-- rest of the node and may each raise a message on any output, never withdraw one.
pub mod Forward
use lf_autoware.Base.{◌≡◌, refl, Bool, true, false, Option, none, some, if◌then◌else◌}
use lf_autoware.Slots.{Slot, forward, raise}
use lf_autoware.Command.Ports.{
  Port, control_cmd, gear_cmd, turn_indicators_cmd, hazard_lights_cmd, Outputs, output, absent,
}

pub record Node (M : Port → Type 0) (N : Type 0) : Type 0 where
  pub control : Slot (M control_cmd)
  pub gear : Slot (M gear_cmd)
  pub turn_indicators : Slot (M turn_indicators_cmd)
  pub hazard_lights : Slot (M hazard_lights_cmd)
  pub rest : N

-- A method of the node, which changes the rest and may raise messages.
abbrev pub Method : (Port → Type 0) → Type 0 → Type 0
Method M N = N → N × Outputs M

module _ {M : Port → Type 0} {N : Type 0} where
  unfoldable pub run_method : Method M N → Node M N → Node M N
  run_method f g =
      let (n, o) = f g.rest in
      record {
        control = raise o.control g.control;
        gear = raise o.gear g.gear;
        turn_indicators = raise o.turn_indicators g.turn_indicators;
        hazard_lights = raise o.hazard_lights g.hazard_lights;
        rest = n;
      }

  module _ (on_timer publish_status : Method M N) where
    -- The reaction to the timer `t`: the outputs that it sets, and the node afterwards.
    unfoldable pub reaction_t : Node M N → Outputs M × Node M N
    unfolding forward run_method
    reaction_t node0 =
        let node1 = run_method on_timer node0 in
        let (control, slot1) = forward node1.control in
        let node2 = record node1 { control = slot1 } in
        let (gear, slot2) = forward node2.gear in
        let node3 = record node2 { gear = slot2 } in
        let (turn_indicators, slot3) = forward node3.turn_indicators in
        let node4 = record node3 { turn_indicators = slot3 } in
        let (hazard_lights, slot4) = forward node4.hazard_lights in
        let node5 = record node4 { hazard_lights = slot4 } in
        (
          record {
            control = control;
            gear = gear;
            turn_indicators = turn_indicators;
            hazard_lights = hazard_lights;
          },
          run_method publish_status node5,
        )
