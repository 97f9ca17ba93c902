-- ===== src/Scheduling.antt =====
-- Who calls the timer methods of the nodes. A reactor with a timer (lf-src/<name>/<name>_main.lf)
-- cancels timers of its node at startup, then lets a thread spin the node, and calls the methods
-- itself at each of its own tags. The node and the executor that spins it are libraries: which
-- timers the node has, and which method each of them calls, is a parameter.
pub mod Schedules
pub mod Exclusive
use text.Mathlib.Text.{◌==◌}
use lf_autoware.Base.{
  ℕ, zero, suc, ◌*◌, ◌≡◌, String, Bool, true, false, ◌||◌, some, List, [], ◌∷◌, ◌++◌, map,
  get_elem?, if◌then◌else◌,
}

-- What a startup reaction does with the node.
pub data Action : Type 0 where
  construct : Action  -- self->node = new …(nodeOptions);
  cancel : String → Action  -- self->node-><timer>->cancel();
  share : Action  -- self->node_shared_ptr = …(self->node);
  start_thread : String → Action  -- pthread_create(…, &spin_node<…>, …);

-- timer t(0, period msec); reaction (t) { self->node-><method>(); … }
pub record Schedule : Type 0 where
  pub startup : List Action
  pub period : ℕ
  pub methods : List String

abbrev pub member : String → List String → Bool
member x [] = false
member x (y ∷ ys) = x == y || member x ys

abbrev pub cancels : List Action → List String
cancels [] = []
cancels (cancel t ∷ as') = t ∷ cancels as'
cancels (construct ∷ as') = cancels as'
cancels (share ∷ as') = cancels as'
cancels (start_thread f ∷ as') = cancels as'

-- A timer of a node, and the method that it calls.
abbrev pub NodeTimer : Type 0
NodeTimer = String × String

-- A reactor at work: what its startup reaction has yet to do, the timers that it has cancelled,
-- whether the node is spun, how many tags the timer has had, and who has called which method: the
-- reaction, with the time in milliseconds, or a timer of the node.
pub record Running : Type 0 where
  pub to_do : List Action
  pub cancelled : List String
  pub spinning : Bool
  pub tags : ℕ
  pub reaction_calls : List (ℕ × String)
  pub timer_calls : List NodeTimer

abbrev pub perform : Action → List Action → Running → Running
perform construct as' r = record r { to_do = as' }
perform (cancel t) as' r = record r { to_do = as'; cancelled = t ∷ r.cancelled }
perform share as' r = record r { to_do = as' }
perform (start_thread f) as' r = record r { to_do = as'; spinning = true }

abbrev pub react : Schedule → Running → Running
react s r = record r {
  tags = suc r.tags;
  reaction_calls = r.reaction_calls ++ map (λ m. (r.tags * s.period, m)) s.methods;
}

abbrev pub fresh : Schedule → Running
fresh s = record {
  to_do = s.startup;
  cancelled = [];
  spinning = false;
  tags = 0;
  reaction_calls = [];
  timer_calls = [];
}

module _ (s : Schedule) (timers : List NodeTimer) where
  pub data Step (r : Running) : Running → Type 0 where
    -- the next action of the startup reaction
    act : (a : Action) (as' : List Action) → r.to_do ≡ a ∷ as' → Step r (perform a as' r)
    -- the reaction to the timer `t`, which comes after the startup reaction
    tag : r.to_do ≡ [] → Step r (react s r)
    -- the thread that spins the node runs a timer that is not cancelled
    fire :
        (k : ℕ) (t : NodeTimer)
        → get_elem? timers k ≡ some t
        → r.spinning ≡ true
        → member t.0 r.cancelled ≡ false
        → Step r (record r { timer_calls = t ∷ r.timer_calls })

  pub data Steps (r : Running) : Running → Type 0 where
    stop : Steps r r
    next : {t u : Running} → Steps r t → Step t u → Steps r u
