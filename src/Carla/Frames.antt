-- ===== src/Carla/Frames.antt =====
-- What the loop does at each frame.
use lf_autoware.Base.{ℕ, zero, suc, ◌≡◌, refl, ap, none, List, [], ◌∷◌, ◌++◌}
use lf_autoware.Carla.{
  Event, vehicle_control, world_tick, initialize, step, forward_control, start, override, turn,
  turns,
}

module _ {C : Type 0} (initial_control : C) (run_step : ℕ → C) where
  -- The control of a frame: what the frame before it returned.
  abbrev pub control_of : ℕ → C
  control_of zero = initial_control
  control_of (suc n) = run_step (suc n)

  -- The calls of the simulator in the first frames, each a control and then a tick.
  abbrev pub frames : ℕ → List (Event C)
  frames zero = world_tick ∷ []
  frames (suc n) = frames n ++ vehicle_control (control_of n) ∷ world_tick ∷ []

  -- After `n` further tags the loop has made `n + 1` frames. Each gives the vehicle what the
  -- interface returned at the frame before, the first the initial control, and then ticks the
  -- world. The logical time has stayed 0, only the microstep has grown, and `apply_control` of the
  -- bridge has never been called, since the port never holds a control.
  pub turns_lem :
      (n : ℕ)
      → turns initial_control run_step n ≡ record {
        bridge = record {
          current_control = control_of (suc n);
          frame_count = suc n;
          events = frames (suc n);
        };
        latest_control = none;
        control_cmd = none;
        overrides = [];
        time = 0;
        microstep = n;
      }
  unfolding turns turn start override step forward_control initialize
  turns_lem zero = refl
  turns_lem (suc n) = ap (turn initial_control run_step) (turns_lem n)
