-- ===== src/Command/Delivery/Flight.antt =====
-- The messages that are on their way in a list of frames.
use mathlib.Core.Option
use lf_autoware.Base.{
  ℕ, ◌≡◌, refl, sym, ap, ◌∙◌, String, Option, none, some, List, [], ◌∷◌, ◌++◌, append_assoc,
  append-nil, Option-cases, inl, inr,
}
use lf_autoware.Federate.Triggers.{ActionPtr, read, globals, initialize_triggers_for_federate}
use lf_autoware.Federate.Table.{bridge}
use lf_autoware.Command.Ports.{
  Port, control_cmd, gear_cmd, turn_indicators_cmd, hazard_lights_cmd, Log, Outputs, output,
  history, no_log, append, single, to_list, clear, history-append, output-clear,
}
use lf_autoware.Command.Network.{
  Frame, msg_type_p2p_message, port_id, Routing, receiver, bridge_actions, network_sender,
  network_receiver, publish, accept, deliver,
}

-- What net_common.h says of a P2P message: it is for the destination port, checked against the
-- identity of the federate. The action of that port is the one in the action table.
abbrev pub IsRouting : Routing → Type 0
IsRouting route =
    (table : List ActionPtr) (id port : ℕ) (bytes : List ℕ)
    → route table id (record {
      message_type = msg_type_p2p_message;
      port = port;
      federate = id;
      message = bytes;
    })
      ≡ Option.map (λ self. (self, bytes)) (read table port)

-- The serializer's round trip.
abbrev pub IsInverse :
    (M : Port → Type 0) → ((p : Port) → M p → List ℕ) → ((p : Port) → List ℕ → M p → M p) → Type 0
IsInverse M serialize deserialize =
    (p : Port) (m into : M p) → deserialize p (serialize p m) into ≡ m

module _ (M : Port → Type 0) (serialize : (p : Port) → M p → List ℕ) (route : Routing)
    (deserialize : (p : Port) → List ℕ → M p → M p) (blank : (p : Port) → M p) where
  abbrev arrived : Frame → Log M → Log M
  arrived = deliver M deserialize blank route

  -- The messages of a port that the frames will give, in order.
  unfoldable pub in_flight : (p : Port) → List Frame → List (M p)
  in_flight p [] = []
  in_flight p (f ∷ fs) = history M p (arrived f (no_log M)) ++ in_flight p fs

  pub in_flight-append :
      (p : Port) (fs gs : List Frame) → in_flight p (fs ++ gs) ≡ in_flight p fs ++ in_flight p gs
  unfolding in_flight
  in_flight-append p [] gs = refl
  in_flight-append p (f ∷ fs) gs =
      rw (in_flight-append p fs gs)
        (sym (append_assoc (history M p (arrived f (no_log M))) (in_flight p fs) (in_flight p gs)))

  history-no_log : (p : Port) (l : Log M) → history M p l ≡ history M p l ++ history M p (no_log M)
  history-no_log control_cmd l = sym (append-nil l.control)
  history-no_log gear_cmd l = sym (append-nil l.gear)
  history-no_log turn_indicators_cmd l = sym (append-nil l.turn_indicators)
  history-no_log hazard_lights_cmd l = sym (append-nil l.hazard_lights)

  empty : (p : Port) → history M p (no_log M) ≡ []
  empty control_cmd = refl
  empty gear_cmd = refl
  empty turn_indicators_cmd = refl
  empty hazard_lights_cmd = refl

  first : (p q : Port) (m : M q) → history M p (append M q m (no_log M)) ≡ single M p q m
  first p q m = history-append M p q m (no_log M) ∙ ap (λ l. l ++ single M p q m) (empty p)

  history-accept :
      (p : Port) (o : Option (String × List ℕ)) (l : Log M)
      → history M p (accept M deserialize blank o l)
        ≡ history M p l ++ history M p (accept M deserialize blank o (no_log M))
  unfolding publish
  history-accept p none l = history-no_log p l
  history-accept p (some (self, bytes)) l = elim (Option-cases (receiver self)) [
    | inl e ↦ rw (e, accept) (history-no_log p l)
    | inr (q, e) ↦
        rw (e, accept)
          (history-append M p q _ l
            ∙ ap (λ x. history M p l ++ x)
                (sym (first p q (network_receiver M deserialize blank q bytes))))
  ]

  -- A frame gives the same messages whenever it arrives.
  pub history-deliver :
      (p : Port) (f : Frame) (l : Log M)
      → history M p (arrived f l) ≡ history M p l ++ history M p (arrived f (no_log M))
  unfolding deliver
  history-deliver p f l = history-accept p (route bridge_actions bridge.fed_id f) l

  module _ (routing : IsRouting route) (inverse : IsInverse M serialize deserialize) where
    abbrev frame : (q : Port) → M q → Frame
    frame q m = record {
      message_type = msg_type_p2p_message;
      port = port_id q;
      federate = 45;
      message = serialize q m;
    }

    received : (q : Port) (m : M q) → network_receiver M deserialize blank q (serialize q m) ≡ m
    unfolding network_receiver
    received q m = inverse q m (blank q)

    routed : (q : Port) (m : M q) (l : Log M) → arrived (frame q m) l ≡ append M q m l
    unfolding deliver publish initialize_triggers_for_federate globals
    routed control_cmd m l =
        rw (routing bridge_actions 45 0 (serialize control_cmd m), received control_cmd m) refl
    routed gear_cmd m l =
        rw (routing bridge_actions 45 1 (serialize gear_cmd m), received gear_cmd m) refl
    routed turn_indicators_cmd m l =
        rw
          (
            routing bridge_actions 45 2 (serialize turn_indicators_cmd m),
            received turn_indicators_cmd m,
          )
          refl
    routed hazard_lights_cmd m l =
        rw
          (
            routing bridge_actions 45 3 (serialize hazard_lights_cmd m),
            received hazard_lights_cmd m,
          )
          refl

    in_flight-sender :
        (p q : Port) (m : M q)
        → in_flight p (network_sender M serialize q (some m)) ≡ single M p q m
    unfolding in_flight network_sender
    in_flight-sender p q m =
        append-nil (history M p (arrived (frame q m) (no_log M)))
        ∙ ap (history M p) (routed q m (no_log M))
        ∙ first p q m

    unchanged :
        (p q : Port) (o : Outputs M)
        → output M q o ≡ none
        → to_list (output M p o) ≡ to_list (output M p (clear M q o))
    unchanged control_cmd control_cmd o e = ap to_list e
    unchanged gear_cmd gear_cmd o e = ap to_list e
    unchanged turn_indicators_cmd turn_indicators_cmd o e = ap to_list e
    unchanged hazard_lights_cmd hazard_lights_cmd o e = ap to_list e
    unchanged p q o e = refl

    -- A sender moves the message of its port from the outputs to the frames.
    pub output-network_sender :
        (p q : Port) (o : Outputs M)
        → to_list (output M p o)
          ≡ in_flight p (network_sender M serialize q (output M q o))
            ++ to_list (output M p (clear M q o))
    unfolding network_sender in_flight
    output-network_sender p q o = elim (Option-cases (output M q o)) [
      | inl e ↦ rw (e, network_sender) (unchanged p q o e)
      | inr (m, e) ↦ rw e (
          output-clear M p q m o e
          ∙ ap (λ x. x ++ to_list (output M p (clear M q o))) (sym (in_flight-sender p q m)))
    ]
