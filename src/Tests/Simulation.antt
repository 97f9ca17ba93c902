-- ===== src/Tests/Simulation.antt =====
-- A run of the CARLA loop with numbers as controls.
use lf_autoware.Base.{◌≡◌, ◌*◌, none, [], ◌∷◌}
use lf_autoware.Carla.{vehicle_control, world_tick, turns}
use lf_autoware.Carla.Frames.{turns_lem}

turns_lem_example : turns 5 (λ n. n * 10) 2 ≡ record {
  bridge = record {
    current_control = 30;
    frame_count = 3;
    events =
        world_tick
        ∷ vehicle_control 5
        ∷ world_tick
        ∷ vehicle_control 10
        ∷ world_tick
        ∷ vehicle_control 20
        ∷ world_tick
        ∷ [];
  };
  latest_control = none;
  control_cmd = none;
  overrides = [];
  time = 0;
  microstep = 2;
}
turns_lem_example = turns_lem 5 (λ n. n * 10) 2
