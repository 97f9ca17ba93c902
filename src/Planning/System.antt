-- ===== src/Planning/System.antt =====
-- The two federates of the trajectories and the socket between them, interleaved in any order.
use lf_autoware.Base.{ℕ, ◌≡◌, Option, none, some, List, [], ◌∷◌, ◌++◌}
use lf_autoware.Slots.{waiting}
use lf_autoware.Command.Ports.{to_list}
use lf_autoware.Command.Network.{Frame, Routing}
use lf_autoware.Planning.{
  Selector, Smoother, selector_reaction, smoother_reaction, trajectory_sender, arriving,
}

-- `output` is trajectory_out of scenario_selector at the current tag, as long as the sender has not
-- taken it. Four lists record what has happened: the trajectories that `onTimer` has raised, those
-- that have come in at velocity_smoother, what its `onCurrentTrajectory` has raised, and what it has
-- set trajectory_out to.
pub record System (T S N K : Type 0) : Type 0 where
  pub selector : Selector T S N
  pub output : Option T
  pub channel : List Frame
  pub smoother : Smoother T K
  pub raised : List T
  pub received : List T
  pub smoothed : List T
  pub outputs : List T

module _ {T S N K : Type 0} where
  abbrev pub tick : (N → N × (Option T × Option S)) → System T S N K → System T S N K
  tick on_timer s =
      let (outputs, node) = selector_reaction on_timer s.selector in
      record s {
        selector = node;
        output = outputs.0;
        raised = s.raised ++ to_list (on_timer s.selector.rest).1.0;
      }

  abbrev pub send : (T → List ℕ) → System T S N K → System T S N K
  send serialize s = record s {
    output = none;
    channel = s.channel ++ trajectory_sender serialize s.output;
  }

  -- The reaction of velocity_smoother, if trajectory_in is present.
  abbrev pub take : (T → K → K × Option T) → Option T → System T S N K → System T S N K
  take on_current_trajectory none s = s
  take on_current_trajectory (some m) s =
      let (output, node) = smoother_reaction on_current_trajectory m s.smoother in
      record s {
        smoother = node;
        received = s.received ++ m ∷ [];
        smoothed = s.smoothed ++ to_list (on_current_trajectory m s.smoother.rest).1;
        outputs = s.outputs ++ to_list output;
      }

  -- Nothing waits and nothing has happened.
  pub record IsInitial (s : System T S N K) : Type 0 where
    pub trajectory : waiting s.selector.trajectory ≡ none
    pub smoothing : waiting s.smoother.trajectory ≡ none
    pub output : s.output ≡ none
    pub channel : s.channel ≡ []
    pub raised : s.raised ≡ []
    pub received : s.received ≡ []
    pub smoothed : s.smoothed ≡ []
    pub outputs : s.outputs ≡ []

-- The code that the two federates are compiled with.
pub record Nodes (T S N K : Type 0) : Type 0 where
  pub on_timer : N → N × (Option T × Option S)
  pub on_current_trajectory : T → K → K × Option T
  pub serialize : T → List ℕ
  pub deserialize : List ℕ → T → T
  pub blank : T
  pub route : Routing

module _ {T S N K : Type 0} (c : Nodes T S N K) where
  pub data Step (s : System T S N K) : System T S N K → Type 0 where
    -- the timer of scenario_selector, at a new tag: the sender of the last tag is done
    timer : s.output ≡ none → Step s (tick c.on_timer s)
    -- the reaction of the sender
    sender : Step s (send c.serialize s)
    -- callbacks in the spin threads of the two nodes, between reactions
    selector_callback :
        (f : N → N)
        → Step s (record s { selector = record s.selector { rest = f s.selector.rest } })
    smoother_callback :
        (f : K → K)
        → Step s (record s { smoother = record s.smoother { rest = f s.smoother.rest } })
    -- federate__vs takes the first frame
    arrival :
        (f : Frame) (fs : List Frame)
        → s.channel ≡ f ∷ fs
        → Step s (
            take c.on_current_trajectory
              (arriving c.deserialize c.blank c.route f)
              (record s { channel = fs }))

  pub data Steps (s : System T S N K) : System T S N K → Type 0 where
    stop : Steps s s
    next : {t u : System T S N K} → Steps s t → Step t u → Steps s u
