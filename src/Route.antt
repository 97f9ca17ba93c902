-- ===== src/Route.antt =====
-- The reaction of the reactor `mission_planner` (lf-src/mission_planner/mission_planner_main.lf),
-- statement by statement, against the callbacks that run in the spin thread meanwhile. The Autoware
-- node is a library: that a service callback sets `lf_output_route` and then `lf_route_is_set` is
-- what the reaction relies on. These are two statements, and statements of the reaction may fall
-- between them. The thread runs one callback after the other. The copy of a route is one step here.
pub mod Order
pub mod Latest
use lf_autoware.Base.{◌≡◌, Bool, true, false, List, [], ◌∷◌, ◌++◌, if◌then◌else◌}

-- Where the reaction to the timer stands.
pub data Pc (A : Type 0) : Type 0 where
  idle : Pc A  -- before the test of the flag
  checked : Pc A  -- inside the `if`, before the copy
  copied : A → Pc A  -- before lf_set
  emitted : Pc A  -- before the flag is cleared

-- `in_callback` holds while a callback has set the route and not yet the flag. `outputs` and
-- `raised` record what the reaction has set on `route_out`, and what the callbacks have put into
-- `lf_output_route`.
pub record Planner (A : Type 0) : Type 0 where
  pub lf_output_route : A
  pub lf_route_is_set : Bool
  pub in_callback : Bool
  pub pc : Pc A
  pub outputs : List A
  pub raised : List A

module _ {A : Type 0} where
  -- The next statement of the reaction at `pc`.
  abbrev pub next_from : Pc A → Planner A → Planner A
  next_from idle s = if s.lf_route_is_set then record s { pc = checked } else s
  next_from checked s = record s { pc = copied s.lf_output_route }
  next_from (copied a) s = record s { pc = emitted; outputs = s.outputs ++ a ∷ [] }
  next_from emitted s = record s { pc = idle; lf_route_is_set = false }

  unfoldable pub advance : Planner A → Planner A
  advance s = next_from s.pc s

  -- The two statements of a callback.
  unfoldable pub write : A → Planner A → Planner A
  write a s = record s { lf_output_route = a; in_callback = true; raised = s.raised ++ a ∷ [] }

  unfoldable pub mark : Planner A → Planner A
  mark s = record s { lf_route_is_set = true; in_callback = false }

  pub data Step (s : Planner A) : Planner A → Type 0 where
    reaction : Step s (advance s)
    write_route : (a : A) → s.in_callback ≡ false → Step s (write a s)
    mark_route : s.in_callback ≡ true → Step s (mark s)

  pub data Steps (s : Planner A) : Planner A → Type 0 where
    stop : Steps s s
    next : {t u : Planner A} → Steps s t → Step t u → Steps s u

  -- No callback has run yet.
  abbrev pub start : A → Planner A
  start a = record {
    lf_output_route = a;
    lf_route_is_set = false;
    in_callback = false;
    pc = idle;
    outputs = [];
    raised = [];
  }
