-- ===== src/Planning/Complete.antt =====
-- The trajectories that have been raised can always be brought to velocity_smoother.
use lf_autoware.Base.{◌≡◌, refl, sym, ap, ◌∙◌, Option, none, some, List, [], ◌∷◌, ◌++◌, append-nil}
use lf_autoware.Command.Ports.{to_list}
use lf_autoware.Command.Network.{Frame}
use lf_autoware.Command.Delivery.Flight.{IsRouting}
use lf_autoware.Planning.{arriving}
use lf_autoware.Planning.System.{
  System, send, take, IsInitial, Nodes, sender, arrival, Steps, stop, next,
}
use lf_autoware.Planning.Delivery.{flying, IsInverse, raised-eq-received}

module _ {T S N K : Type 0} (c : Nodes T S N K) where
  append-Steps : (s t u : System T S N K) → Steps c s t → Steps c t u → Steps c s u
  append-Steps s t _ r stop = r
  append-Steps s t _ r (next {t = v} q x) = next (append-Steps s t v r q) x

  abbrev take_frame : Frame → List Frame → System T S N K → System T S N K
  take_frame f fs s =
      take c.on_current_trajectory (arriving c.deserialize c.blank c.route f)
        (record s { channel = fs })

  -- federate__vs takes every frame.
  abbrev drain : List Frame → System T S N K → System T S N K
  drain [] s = s
  drain (f ∷ fs) s = drain fs (take_frame f fs s)

  record IsDrained (s t : System T S N K) : Type 0 where
    run : Steps c s t
    channel : t.channel ≡ []
    output : t.output ≡ s.output
    raised : t.raised ≡ s.raised

  record IsKept (fs : List Frame) (s t : System T S N K) : Type 0 where
    channel : t.channel ≡ fs
    output : t.output ≡ s.output
    raised : t.raised ≡ s.raised

  take-IsKept :
      (o : Option T) (fs : List Frame) (s : System T S N K)
      → IsKept fs s (take c.on_current_trajectory o (record s { channel = fs }))
  take-IsKept none fs s = record { channel = refl; output = refl; raised = refl }
  take-IsKept (some m) fs s = record { channel = refl; output = refl; raised = refl }

  drain-IsDrained :
      (fs : List Frame) (s : System T S N K) → s.channel ≡ fs → IsDrained s (drain fs s)
  drain-IsDrained [] s e = record { run = stop; channel = e; output = refl; raised = refl }
  drain-IsDrained (f ∷ fs) s e =
      let taken = take_frame f fs s in
      let kept = take-IsKept (arriving c.deserialize c.blank c.route f) fs s in
      let rest = drain-IsDrained fs taken kept.channel in
      record {
        run = append-Steps s taken (drain fs taken) (next stop (arrival f fs e)) rest.run;
        channel = rest.channel;
        output = rest.output ∙ kept.output;
        raised = rest.raised ∙ kept.raised;
      }

  flight : List Frame → Option T → List T
  flight fs o = flying c fs ++ to_list o

  -- Let the serializer read back what it writes, and the runtime schedule the action of a frame's
  -- port. Then from every state that a run reaches from a start with nothing waiting, the sender and
  -- federate__vs alone can go on to one in which the trajectories that have come in at
  -- velocity_smoother are exactly those that `onTimer` of scenario_selector has raised, in the same
  -- order.
  pub received-eq-raised :
      IsRouting c.route
      → IsInverse c
      → (s t : System T S N K) → IsInitial s
      → Steps c s t
      → (u : System T S N K) × Steps c t u × (u.raised ≡ t.raised) × (u.received ≡ t.raised)
  unfolding flight flying
  received-eq-raised routing inverse s t i r = (last, run, drained.raised, received)
    where
      sent : System T S N K
      sent = send c.serialize t

      last : System T S N K
      last = drain sent.channel sent

      drained : IsDrained sent last
      drained = drain-IsDrained sent.channel sent refl

      run : Steps c t last
      run = append-Steps t sent last (next stop sender) drained.run

      received : last.received ≡ t.raised
      received =
          sym (append-nil last.received)
          ∙ ap (λ l. last.received ++ l)
              (sym
                (ap (λ fs. flight fs last.output) drained.channel ∙ ap (flight []) drained.output))
          ∙ sym (raised-eq-received c routing inverse s last i (append-Steps s t last r run)).0
          ∙ drained.raised
