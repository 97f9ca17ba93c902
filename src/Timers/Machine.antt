-- ===== src/Timers/Machine.antt =====
-- What a node behind slots promises: seen from outside it is a machine that puts out, at each tag,
-- what its method raises at that tag.
use lf_autoware.Base.{◌≡◌, refl, ap, ◌∙◌, List, [], ◌∷◌}

-- `State` is that of a node with its slots, `Rest` the rest of it and `Out` the outputs of a tag.
pub record Polling (State Rest Out : Type 0) : Type 0 where
  pub reaction : State → Out × State
  pub method : Rest → Rest × Out
  pub rest : State → Rest
  pub with_rest : Rest → State → State
  -- what waits in the slots, and the outputs that are absent
  pub pending : State → Out
  pub absent : Out
  pub newer : Out → Out → Out
  pub newer-absent : (o : Out) → newer o absent ≡ o
  pub forwards : (s : State) → (reaction s).0 ≡ newer (method (rest s)).1 (pending s)
  pub clears : (s : State) → pending (reaction s).1 ≡ absent
  pub advances : (s : State) → rest (reaction s).1 ≡ (method (rest s)).0
  pub rest-with_rest : (r : Rest) (s : State) → rest (with_rest r s) ≡ r
  pub pending-with_rest : (r : Rest) (s : State) → pending (with_rest r s) ≡ pending s

module _ {State Rest Out : Type 0} (node : Polling State Rest Out) where
  -- The outputs of the reactor at each tag, when `callbacks` are what the spin thread does to the
  -- rest of the node before each of them.
  abbrev pub reactor_outputs : List (Rest → Rest) → State → List Out
  reactor_outputs [] s = []
  reactor_outputs (f ∷ fs) s =
      let (out, s') = node.reaction (node.with_rest (f (node.rest s)) s) in
      out ∷ reactor_outputs fs s'

  -- The outputs of a machine without slots.
  abbrev pub machine_outputs : List (Rest → Rest) → Rest → List Out
  machine_outputs [] r = []
  machine_outputs (f ∷ fs) r = let (r', out) = node.method (f r) in out ∷ machine_outputs fs r'

  pub reactor-eq-machine :
      (fs : List (Rest → Rest)) (s : State)
      → node.pending s ≡ node.absent
      → reactor_outputs fs s ≡ machine_outputs fs (node.rest s)
  reactor-eq-machine [] s h = refl
  reactor-eq-machine (f ∷ fs) s h =
      let s' = node.with_rest (f (node.rest s)) s in
      let same = node.rest-with_rest (f (node.rest s)) s in
      let out : (node.reaction s').0 ≡ (node.method (f (node.rest s))).1 =
        node.forwards s'
        ∙ ap (node.newer (node.method (node.rest s')).1)
            (node.pending-with_rest (f (node.rest s)) s ∙ h)
        ∙ node.newer-absent (node.method (node.rest s')).1
        ∙ ap (λ r. (node.method r).1) same in
      let later = reactor-eq-machine fs (node.reaction s').1 (node.clears s') in
      ap (λ o. o ∷ reactor_outputs fs (node.reaction s').1) out
      ∙ ap (λ os. (node.method (f (node.rest s))).1 ∷ os)
          (later ∙ ap (machine_outputs fs) (node.advances s' ∙ ap (λ r. (node.method r).0) same))
