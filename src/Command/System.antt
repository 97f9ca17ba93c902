-- ===== src/Command/System.antt =====
-- The two federates and the socket between them, interleaved in any order.
use lf_autoware.Base.{ℕ, ◌≡◌, none, List, [], ◌∷◌, ◌++◌}
use lf_autoware.Command.Ports.{Port, Log, Outputs, output, absent, no_log, append_all, clear}
use lf_autoware.Command.Gate.{Node, Method, reaction_t}
use lf_autoware.Command.Gate.Forward.{pending}
use lf_autoware.Command.Network.{Frame, Routing, network_sender, deliver}

-- `outputs` are the outputs of the current tag that no sender has taken yet. `raised` records what
-- `onTimer` raises; the last frame of `channel` is the one sent last.
pub record System (M : Port → Type 0) (N : Type 0) : Type 0 where
  pub node : Node M N
  pub outputs : Outputs M
  pub channel : List Frame
  pub raised : Log M
  pub published : Log M

module _ {M : Port → Type 0} {N : Type 0} where
  abbrev pub tick : Method M N → Method M N → System M N → System M N
  tick on_timer publish_status s =
      let (outputs, node) = reaction_t on_timer publish_status s.node in
      record s {
        node = node;
        outputs = outputs;
        raised = append_all M (on_timer s.node.rest).1 s.raised;
      }

  abbrev pub send : ((p : Port) → M p → List ℕ) → Port → System M N → System M N
  send serialize p s = record s {
    outputs = clear M p s.outputs;
    channel = s.channel ++ network_sender M serialize p (output M p s.outputs);
  }

  abbrev pub arrive :
      ((p : Port) → List ℕ → M p → M p)
      → ((p : Port) → M p)
      → Routing
      → Frame
      → List Frame
      → System M N
      → System M N
  arrive deserialize blank route f fs s = record s {
    channel = fs;
    published = deliver M deserialize blank route f s.published;
  }

  -- Nothing waits and nothing has been sent.
  pub record IsInitial (s : System M N) : Type 0 where
    pub waiting : (p : Port) → pending p s.node ≡ none
    pub outputs : s.outputs ≡ absent M
    pub channel : s.channel ≡ []
    pub raised : s.raised ≡ no_log M
    pub published : s.published ≡ no_log M

module _ {M : Port → Type 0} {N : Type 0} (on_timer publish_status : Method M N)
    (serialize : (p : Port) → M p → List ℕ) (route : Routing)
    (deserialize : (p : Port) → List ℕ → M p → M p) (blank : (p : Port) → M p) where
  pub data Step (s : System M N) : System M N → Type 0 where
    -- the timer, at a new tag: every sender of the last tag is done
    timer : s.outputs ≡ absent M → Step s (tick on_timer publish_status s)
    -- the reaction of the sender of a port
    sender : (p : Port) → Step s (send serialize p s)
    -- a callback in the spin thread, between reactions
    callback : (f : N → N) → Step s (record s { node = record s.node { rest = f s.node.rest } })
    -- the other federate takes the first frame
    arrival :
        (f : Frame) (fs : List Frame)
        → s.channel ≡ f ∷ fs
        → Step s (arrive deserialize blank route f fs s)

  pub data Steps (s : System M N) : System M N → Type 0 where
    stop : Steps s s
    next : {t u : System M N} → Steps s t → Step t u → Steps s u
