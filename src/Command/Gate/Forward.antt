-- ===== src/Command/Gate/Forward.antt =====
-- What the reaction to the timer forwards.
use lf_autoware.Base.{◌≡◌, Option}
use lf_autoware.Command.Ports.{
  Port, control_cmd, gear_cmd, turn_indicators_cmd, hazard_lights_cmd, output,
}
use lf_autoware.Slots.{waiting, newest, forward-raise}
use lf_autoware.Command.Gate.{Node, Method, run_method, reaction_t}

module _ {M : Port → Type 0} {N : Type 0} where
  abbrev pub pending : (p : Port) → Node M N → Option (M p)
  pending control_cmd g = waiting g.control
  pending gear_cmd g = waiting g.gear
  pending turn_indicators_cmd g = waiting g.turn_indicators
  pending hazard_lights_cmd g = waiting g.hazard_lights

  module _ (on_timer publish_status : Method M N) where
    -- On every port the reaction sets exactly the newest message that waits, one that `onTimer`
    -- raises before one from earlier, and afterwards only what `publishStatus` raises waits: no
    -- message is sent twice, and none is dropped but one that a newer one of its port replaces.
    pub reaction_t-newest :
        (g : Node M N) (p : Port)
        → (output M p (reaction_t on_timer publish_status g).0
            ≡ newest (output M p (on_timer g.rest).1) (pending p g))
          × (pending p (reaction_t on_timer publish_status g).1
              ≡ output M p (publish_status (on_timer g.rest).0).1)
    unfolding reaction_t run_method
    reaction_t-newest g control_cmd = forward-raise _ _ g.control
    reaction_t-newest g gear_cmd = forward-raise _ _ g.gear
    reaction_t-newest g turn_indicators_cmd = forward-raise _ _ g.turn_indicators
    reaction_t-newest g hazard_lights_cmd = forward-raise _ _ g.hazard_lights
