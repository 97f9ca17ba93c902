-- ===== src/Carla.antt =====
-- The loop of the reactors `Carla` and `ControlBridge` (lf-src/carla_interface/federate__ci.lf and
-- CarlaInterface.lf, which have the same text) with the class `CarlaBridge`
-- (lf-src/carla_interface/carla_bridge.py). CARLA and the ROS interface are libraries: calls of the
-- simulator are recorded, and the control that `run_step` returns at each frame is a parameter.
pub mod Frames
use lf_autoware.Base.{ℕ, zero, suc, ◌+◌, Option, none, some, List, [], ◌∷◌, ◌++◌}

-- Calls of the simulator.
pub data Event (C : Type 0) : Type 0 where
  vehicle_control : C → Event C  -- self.ego_actor.apply_control(…)
  world_tick : Event C  -- self.world.tick()

pub record CarlaBridge (C : Type 0) : Type 0 where
  pub current_control : C
  pub frame_count : ℕ
  pub events : List (Event C)

-- `control_cmd` is the event on the delayed connection, and holds what the port will hold; `time`
-- and `microstep` are the tag of the last reactions. `overrides` records the calls of
-- `CarlaBridge.apply_control`.
pub record Loop (C : Type 0) : Type 0 where
  pub bridge : CarlaBridge C
  pub latest_control : Option C
  pub control_cmd : Option C
  pub overrides : List C
  pub time : ℕ
  pub microstep : ℕ

-- `initial_control` is a control as its constructor makes it.
module _ {C : Type 0} (initial_control : C) (run_step : ℕ → C) where
  -- CarlaBridge(config), and the tick at the end of `initialize`.
  unfoldable pub initialize : CarlaBridge C
  initialize = record {
    current_control = initial_control;
    frame_count = 0;
    events = world_tick ∷ [];
  }

  unfoldable pub step : CarlaBridge C → CarlaBridge C
  step b = record {
    current_control = run_step (suc b.frame_count);
    frame_count = suc b.frame_count;
    events = b.events ++ vehicle_control b.current_control ∷ world_tick ∷ [];
  }

  unfoldable pub apply_control : C → CarlaBridge C → CarlaBridge C
  apply_control c b = record b { current_control = c }

  -- The reaction of `ControlBridge` to sensor_tick, with the connection `after 0`, which puts off
  -- the event by one microstep.
  unfoldable pub forward_control : Loop C → Loop C
  forward_control l = record l { control_cmd = l.latest_control }

  -- The startup reactions, and the reaction to the sensor_tick that they set.
  unfoldable pub start : Loop C
  unfolding initialize step
  start = forward_control (record {
    bridge = step initialize;
    latest_control = none;
    control_cmd = none;
    overrides = [];
    time = 0;
    microstep = 0;
  })

  -- The reaction of `Carla` to control_cmd, up to the step.
  unfoldable pub override : Option C → Loop C → Loop C
  override none l = l
  override (some c) l = record l {
    bridge = apply_control c l.bridge;
    overrides = l.overrides ++ c ∷ [];
  }

  -- The next tag: `Carla` reacts to control_cmd, and `ControlBridge` to its sensor_tick.
  unfoldable pub turn : Loop C → Loop C
  unfolding override step forward_control
  turn l =
      let l1 = override l.control_cmd l in
      forward_control (record l1 { bridge = step l1.bridge; microstep = suc l1.microstep })

  unfoldable pub turns : ℕ → Loop C
  turns zero = start
  turns (suc n) = turn (turns n)
