-- ===== src/Planning/Delivery.antt =====
-- The trajectories arrive, in order, and velocity_smoother withholds nothing.
use lf_autoware.Base.{
  ◌≡◌, refl, sym, ap, ◌∙◌, Option, none, some, List, [], ◌∷◌, ◌++◌, append_assoc, append-nil,
}
use lf_autoware.Slots.{waiting, newest, newest-none, forward-raise}
use lf_autoware.Federate.Triggers.{globals, initialize_triggers_for_federate}
use lf_autoware.Command.Ports.{to_list}
use lf_autoware.Command.Network.{Frame}
use lf_autoware.Command.Delivery.Flight.{IsRouting}
use lf_autoware.Planning.{
  selector_reaction, smoother_reaction, trajectory_sender, trajectory_receiver, vs_actions,
  arriving,
}
use lf_autoware.Planning.System.{
  System, tick, send, take, IsInitial, Nodes, Step, timer, sender, selector_callback,
  smoother_callback, arrival, Steps, stop, next,
}

module _ {T S N K : Type 0} (c : Nodes T S N K) where
  -- The trajectories that a list of frames will give.
  unfoldable pub flying : List Frame → List T
  flying [] = []
  flying (f ∷ fs) = to_list (arriving c.deserialize c.blank c.route f) ++ flying fs

  flying-append : (fs gs : List Frame) → flying (fs ++ gs) ≡ flying fs ++ flying gs
  unfolding flying
  flying-append [] gs = refl
  flying-append (f ∷ fs) gs = rw (flying-append fs gs) (
      sym
        (append_assoc (to_list (arriving c.deserialize c.blank c.route f)) (flying fs) (flying gs)))

  abbrev pub accounted : System T S N K → List T
  accounted s = s.received ++ (flying s.channel ++ to_list s.output)

  record IsDelivered (s : System T S N K) : Type 0 where
    trajectory : waiting s.selector.trajectory ≡ none
    smoothing : waiting s.smoother.trajectory ≡ none
    raised : s.raised ≡ accounted s
    outputs : s.outputs ≡ s.smoothed

  account : List T → List Frame → Option T → List T
  account r fs o = r ++ (flying fs ++ to_list o)

  IsDelivered-initial : (s : System T S N K) → IsInitial s → IsDelivered s
  unfolding flying account
  IsDelivered-initial s h = record {
    trajectory = h.trajectory;
    smoothing = h.smoothing;
    raised =
        h.raised
        ∙ sym (
            ap (λ r. account r s.channel s.output) h.received
            ∙ ap (λ fs. account [] fs s.output) h.channel
            ∙ ap (account [] []) h.output);
    outputs = h.outputs ∙ sym h.smoothed;
  }

  behind : {A : Type 0} (xs ys zs : List A) → (xs ++ (ys ++ [])) ++ zs ≡ xs ++ (ys ++ zs)
  behind xs ys zs = simp (append_assoc, append-nil)

  set_by_timer :
      (s : System T S N K)
      → waiting s.selector.trajectory ≡ none
      → (selector_reaction c.on_timer s.selector).0.0 ≡ (c.on_timer s.selector.rest).1.0
  unfolding selector_reaction
  set_by_timer s h =
      (forward-raise (c.on_timer s.selector.rest).1.0 none s.selector.trajectory).0
      ∙ ap (newest (c.on_timer s.selector.rest).1.0) h
      ∙ newest-none (c.on_timer s.selector.rest).1.0

  IsDelivered-tick :
      (s : System T S N K) → s.output ≡ none → IsDelivered s → IsDelivered (tick c.on_timer s)
  unfolding account selector_reaction
  IsDelivered-tick s e h = record {
    trajectory = (forward-raise (c.on_timer s.selector.rest).1.0 none s.selector.trajectory).1;
    smoothing = h.smoothing;
    raised =
        let raised = to_list (c.on_timer s.selector.rest).1.0 in
        ap (λ l. l ++ raised) (h.raised ∙ ap (account s.received s.channel) e)
        ∙ behind s.received (flying s.channel) raised
        ∙ ap (λ o. s.received ++ (flying s.channel ++ to_list o))
            (sym (set_by_timer s h.trajectory));
    outputs = h.outputs;
  }

  IsDelivered-take :
      (o : Option T) (s : System T S N K) (fs : List Frame)
      → waiting s.selector.trajectory ≡ none
      → waiting s.smoother.trajectory ≡ none
      → s.raised ≡ s.received ++ (to_list o ++ (flying fs ++ to_list s.output))
      → s.outputs ≡ s.smoothed
      → IsDelivered (take c.on_current_trajectory o (record s { channel = fs }))
  unfolding smoother_reaction
  IsDelivered-take none s fs h k r e = record {
    trajectory = h;
    smoothing = k;
    raised = r;
    outputs = e;
  }
  IsDelivered-take (some m) s fs h k r e =
      let raised = (c.on_current_trajectory m s.smoother.rest).1 in
      let slot = forward-raise raised none s.smoother.trajectory in
      record {
        trajectory = h;
        smoothing = slot.1;
        raised = r ∙ sym (append_assoc s.received (m ∷ []) (flying fs ++ to_list s.output));
        outputs =
            ap (λ l. l ++ to_list (smoother_reaction c.on_current_trajectory m s.smoother).0) e
            ∙ ap (λ o. s.smoothed ++ to_list o)
                (slot.0 ∙ ap (newest raised) k ∙ newest-none raised);
      }

  IsDelivered-arrival :
      (f : Frame) (fs : List Frame) (s : System T S N K)
      → s.channel ≡ f ∷ fs
      → IsDelivered s
      → IsDelivered (
          take c.on_current_trajectory
            (arriving c.deserialize c.blank c.route f)
            (record s { channel = fs }))
  unfolding flying account
  IsDelivered-arrival f fs s e h =
      IsDelivered-take (arriving c.deserialize c.blank c.route f) s fs h.trajectory h.smoothing
        (h.raised
          ∙ ap (λ l. account s.received l s.output) e
          ∙ ap (λ l. s.received ++ l)
              (append_assoc (to_list (arriving c.deserialize c.blank c.route f)) (flying fs)
                (to_list s.output)))
        h.outputs

  -- The serializer reads back what it writes.
  abbrev pub IsInverse : Type 0
  IsInverse = (m into : T) → c.deserialize (c.serialize m) into ≡ m

  module _ (routing : IsRouting c.route) (inverse : IsInverse) where
    flying-sender : (o : Option T) → flying (trajectory_sender c.serialize o) ≡ to_list o
    unfolding flying trajectory_sender arriving trajectory_receiver initialize_triggers_for_federate
        globals
    flying-sender none = refl
    flying-sender (some m) = rw (routing vs_actions 32 0 (c.serialize m), inverse m c.blank) refl

    IsDelivered-send : (s : System T S N K) → IsDelivered s → IsDelivered (send c.serialize s)
    IsDelivered-send s h = record {
      trajectory = h.trajectory;
      smoothing = h.smoothing;
      raised =
          h.raised
          ∙ ap (λ l. s.received ++ l)
              (ap (λ l. flying s.channel ++ l) (sym (flying-sender s.output))
                ∙ sym (flying-append s.channel (trajectory_sender c.serialize s.output))
                ∙ sym (append-nil (flying (s.channel ++ trajectory_sender c.serialize s.output))));
      outputs = h.outputs;
    }

    IsDelivered-Step : (s t : System T S N K) → Step c s t → IsDelivered s → IsDelivered t
    IsDelivered-Step s _ (timer e) h = IsDelivered-tick s e h
    IsDelivered-Step s _ sender h = IsDelivered-send s h
    IsDelivered-Step s _ (selector_callback f) h = record {
      trajectory = h.trajectory;
      smoothing = h.smoothing;
      raised = h.raised;
      outputs = h.outputs;
    }
    IsDelivered-Step s _ (smoother_callback f) h = record {
      trajectory = h.trajectory;
      smoothing = h.smoothing;
      raised = h.raised;
      outputs = h.outputs;
    }
    IsDelivered-Step s _ (arrival f fs e) h = IsDelivered-arrival f fs s e h

    IsDelivered-Steps : (s t : System T S N K) → Steps c s t → IsDelivered s → IsDelivered t
    IsDelivered-Steps s _ stop h = h
    IsDelivered-Steps s _ (next {t} {u} r x) h = IsDelivered-Step t u x (IsDelivered-Steps s t r h)

    -- Let the serializer read back what it writes, and the runtime schedule the action of a frame's
    -- port. Then after every sequence of steps from a start with nothing waiting, the trajectories
    -- that `onTimer` of scenario_selector has raised are, in the same order, those that have come in
    -- at velocity_smoother, those in the channel, and the one that the sender has yet to take; and
    -- velocity_smoother has sent on exactly what its callback has raised, in the same order.
    pub raised-eq-received :
        (s t : System T S N K)
        → IsInitial s
        → Steps c s t
        → (t.raised ≡ t.received ++ (flying t.channel ++ to_list t.output))
          × (t.outputs ≡ t.smoothed)
    raised-eq-received s t i r =
        let d = IsDelivered-Steps s t r (IsDelivered-initial s i) in (d.raised, d.outputs)
