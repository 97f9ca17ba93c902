-- ===== src/Command/Delivery/Complete.antt =====
-- The commands that have been raised can always be brought to their topics.
use lf_autoware.Base.{ℕ, ◌≡◌, refl, sym, ap, ◌∙◌, List, [], ◌∷◌, ◌++◌, append-nil}
use lf_autoware.Command.Ports.{
  Port, control_cmd, gear_cmd, turn_indicators_cmd, hazard_lights_cmd, Outputs, output, history,
  absent, to_list,
}
use lf_autoware.Command.Gate.{Method}
use lf_autoware.Command.Network.{Frame, Routing}
use lf_autoware.Command.System.{System, send, arrive, sender, arrival, Steps, stop, next, IsInitial}
use lf_autoware.Command.Delivery.Flight.{IsRouting, IsInverse, in_flight}
use lf_autoware.Command.Delivery.Conserved.{IsQuiet, raised-eq-accounted}

module _ {M : Port → Type 0} {N : Type 0} (on_timer publish_status : Method M N)
    (serialize : (p : Port) → M p → List ℕ) (route : Routing)
    (deserialize : (p : Port) → List ℕ → M p → M p) (blank : (p : Port) → M p) where
  abbrev Run : System M N → System M N → Type 0
  Run = Steps on_timer publish_status serialize route deserialize blank

  append-Steps : (s t u : System M N) → Run s t → Run t u → Run s u
  append-Steps s t _ r stop = r
  append-Steps s t _ r (next {t = v} q x) = next (append-Steps s t v r q) x

  -- Every sender takes the output of its port.
  abbrev send_all : System M N → System M N
  send_all s =
      send serialize hazard_lights_cmd (
        send serialize turn_indicators_cmd (send serialize gear_cmd (send serialize control_cmd s)))

  -- The other federate takes every frame.
  abbrev drain : List Frame → System M N → System M N
  drain [] s = s
  drain (f ∷ fs) s = drain fs (arrive deserialize blank route f fs s)

  record IsDrained (s t : System M N) : Type 0 where
    run : Run s t
    channel : t.channel ≡ []
    outputs : t.outputs ≡ s.outputs
    raised : t.raised ≡ s.raised

  IsDrained-drain : (fs : List Frame) (s : System M N) → s.channel ≡ fs → IsDrained s (drain fs s)
  IsDrained-drain [] s e = record { run = stop; channel = e; outputs = refl; raised = refl }
  IsDrained-drain (f ∷ fs) s e =
      let taken = arrive deserialize blank route f fs s in
      let rest = IsDrained-drain fs taken refl in
      record {
        run = append-Steps s taken (drain fs taken) (next stop (arrival f fs e)) rest.run;
        channel = rest.channel;
        outputs = rest.outputs;
        raised = rest.raised;
      }

  send_all-Run : (s : System M N) → Run s (send_all s)
  send_all-Run s =
      next
        (next (next (next stop (sender control_cmd)) (sender gear_cmd))
          (sender turn_indicators_cmd))
        (sender hazard_lights_cmd)

  flight : (p : Port) → List Frame → Outputs M → List (M p)
  flight p fs o = in_flight M serialize route deserialize blank p fs ++ to_list (output M p o)

  none_left : (p : Port) → flight p [] (absent M) ≡ []
  unfolding flight in_flight
  none_left control_cmd = refl
  none_left gear_cmd = refl
  none_left turn_indicators_cmd = refl
  none_left hazard_lights_cmd = refl

  module _ (routing : IsRouting route) (inverse : IsInverse M serialize deserialize) where
    -- Let the serializer read back what it writes, the runtime schedule the action of a frame's
    -- port, and `publishStatus` raise no command. Then from every state that a run reaches from a
    -- start with nothing waiting, the senders and the other federate alone can go on to one in
    -- which, on each port, the published commands are exactly those that `onTimer` has raised, in
    -- the same order.
    pub published-eq-raised :
        IsQuiet publish_status
        → (s t : System M N) → IsInitial s
        → Steps on_timer publish_status serialize route deserialize blank s t
        → (u : System M N) × (Steps on_timer publish_status serialize route deserialize blank t u)
          × (u.raised ≡ t.raised)
          × ((p : Port) → history M p u.published ≡ history M p t.raised)
    unfolding flight
    published-eq-raised quiet s t i r = (last, run, drained.raised, all_published)
      where
        sent : System M N
        sent = send_all t

        last : System M N
        last = drain sent.channel sent

        drained : IsDrained sent last
        drained = IsDrained-drain sent.channel sent refl

        run : Run t last
        run = append-Steps t sent last (send_all-Run t) drained.run

        all_published : (p : Port) → history M p last.published ≡ history M p t.raised
        all_published p =
            sym (append-nil (history M p last.published))
            ∙ ap (λ l. history M p last.published ++ l)
                (sym (
                  ap (λ fs. flight p fs last.outputs) drained.channel
                  ∙ ap (flight p []) drained.outputs
                  ∙ none_left p))
            ∙ sym (
                raised-eq-accounted on_timer publish_status serialize route deserialize blank
                  routing inverse quiet s last i (append-Steps s t last r run) p)
            ∙ ap (history M p) drained.raised
