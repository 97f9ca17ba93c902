-- ===== src/Command/Delivery/Conserved.antt =====
-- Along every run of the two federates no command is lost, made up, repeated, reordered or taken to
-- another topic.

use lf_autoware.Base.{
  ℕ, ◌≡◌, refl, sym, ap, ◌∙◌, none, List, [], ◌∷◌, ◌++◌, append_assoc, append-nil,
}
use lf_autoware.Command.Ports.{
  Port, control_cmd, gear_cmd, turn_indicators_cmd, hazard_lights_cmd, Log, Outputs, output,
  history, absent, to_list, clear, history-append_all,
}
use lf_autoware.Command.Gate.{Node, Method, reaction_t}
use lf_autoware.Slots.{newest, newest-none}
use lf_autoware.Command.Gate.Forward.{pending, reaction_t-newest}
use lf_autoware.Command.Network.{Frame, Routing, network_sender}
use lf_autoware.Command.System.{
  System, tick, send, arrive, Step, timer, sender, callback, arrival, Steps, stop, next, IsInitial,
}
use lf_autoware.Command.Delivery.Flight.{
  IsRouting, IsInverse, in_flight, in_flight-append, history-deliver, output-network_sender,
}

-- `publishStatus` raises no command.
abbrev pub IsQuiet : {M : Port → Type 0} {N : Type 0} → Method M N → Type 0
IsQuiet {M} {N} publish_status = (n : N) → (publish_status n).1 ≡ absent M

module _ {M : Port → Type 0} {N : Type 0} (on_timer publish_status : Method M N)
    (serialize : (p : Port) → M p → List ℕ) (route : Routing)
    (deserialize : (p : Port) → List ℕ → M p → M p) (blank : (p : Port) → M p) where
  abbrev flying : (p : Port) → List Frame → List (M p)
  flying = in_flight M serialize route deserialize blank

  -- Where the commands of a port are that the timer has raised: published, in the channel, or held
  -- by an output that its sender has not taken.
  abbrev pub accounted : (p : Port) → System M N → List (M p)
  accounted p s = history M p s.published ++ (flying p s.channel ++ to_list (output M p s.outputs))

  record IsAccounted (s : System M N) : Type 0 where
    waiting : (p : Port) → pending p s.node ≡ none
    commands : (p : Port) → history M p s.raised ≡ accounted p s

  nothing : (p : Port) → to_list (output M p (absent M)) ≡ []
  nothing control_cmd = refl
  nothing gear_cmd = refl
  nothing turn_indicators_cmd = refl
  nothing hazard_lights_cmd = refl

  no_output : (p : Port) → output M p (absent M) ≡ none
  no_output control_cmd = refl
  no_output gear_cmd = refl
  no_output turn_indicators_cmd = refl
  no_output hazard_lights_cmd = refl

  -- A list put behind one that ends in nothing.
  behind : {A : Type 0} (xs ys zs : List A) → (xs ++ (ys ++ [])) ++ zs ≡ xs ++ (ys ++ zs)
  behind xs ys zs = simp (append_assoc, append-nil)

  between :
      {A : Type 0} (xs ys zs us : List A) → xs ++ ((ys ++ zs) ++ us) ≡ (xs ++ ys) ++ (zs ++ us)
  between xs ys zs us = simp append_assoc

  account : (p : Port) → Log M → List Frame → Outputs M → List (M p)
  account p l fs o = history M p l ++ (flying p fs ++ to_list (output M p o))

  IsAccounted-initial : (s : System M N) → IsInitial s → IsAccounted s
  unfolding in_flight account
  IsAccounted-initial s h = record {
    waiting = h.waiting;
    commands = λ p.
        ap (history M p) (h.raised ∙ sym h.published)
        ∙ sym (append-nil (history M p s.published))
        ∙ sym (
            ap (λ fs. account p s.published fs s.outputs) h.channel
            ∙ ap (account p s.published []) h.outputs
            ∙ ap (λ l. history M p s.published ++ l) (nothing p));
  }

  set_by_timer :
      (s : System M N) (p : Port)
      → pending p s.node ≡ none
      → output M p (reaction_t on_timer publish_status s.node).0
        ≡ output M p (on_timer s.node.rest).1
  set_by_timer s p h =
      (reaction_t-newest on_timer publish_status s.node p).0
      ∙ ap (newest (output M p (on_timer s.node.rest).1)) h
      ∙ newest-none (output M p (on_timer s.node.rest).1)

  IsAccounted-tick :
      (s : System M N)
      → IsQuiet publish_status
      → s.outputs ≡ absent M
      → IsAccounted s
      → IsAccounted (tick on_timer publish_status s)
  unfolding account
  IsAccounted-tick s quiet e h = record {
    waiting = λ p.
        (reaction_t-newest on_timer publish_status s.node p).1
        ∙ ap (output M p) (quiet (on_timer s.node.rest).0)
        ∙ no_output p;
    commands = λ p.
        let raised = to_list (output M p (on_timer s.node.rest).1) in
        history-append_all M p (on_timer s.node.rest).1 s.raised
        ∙ ap (λ l. l ++ raised)
            (h.commands p
              ∙ ap (account p s.published s.channel) e
              ∙ ap (λ l. history M p s.published ++ (flying p s.channel ++ l)) (nothing p))
        ∙ behind (history M p s.published) (flying p s.channel) raised
        ∙ ap (λ o. history M p s.published ++ (flying p s.channel ++ to_list o))
            (sym (set_by_timer s p (h.waiting p)));
  }

  pending-callback :
      (p : Port) (f : N → N) (g : Node M N) → pending p (record g { rest = f g.rest }) ≡ pending p g
  pending-callback control_cmd f g = refl
  pending-callback gear_cmd f g = refl
  pending-callback turn_indicators_cmd f g = refl
  pending-callback hazard_lights_cmd f g = refl

  IsAccounted-arrive :
      (f : Frame) (fs : List Frame) (s : System M N)
      → s.channel ≡ f ∷ fs
      → IsAccounted s
      → IsAccounted (arrive deserialize blank route f fs s)
  unfolding in_flight account
  IsAccounted-arrive f fs s e h = record {
    waiting = h.waiting;
    commands = λ p.
        h.commands p
        ∙ ap (λ l. account p s.published l s.outputs) e
        ∙ between (history M p s.published) _ (flying p fs) (to_list (output M p s.outputs))
        ∙ ap (λ l. l ++ (flying p fs ++ to_list (output M p s.outputs)))
            (sym (history-deliver M serialize route deserialize blank p f s.published));
  }

  module _ (routing : IsRouting route) (inverse : IsInverse M serialize deserialize) where
    IsAccounted-send :
        (q : Port) (s : System M N) → IsAccounted s → IsAccounted (send serialize q s)
    IsAccounted-send q s h = record {
      waiting = h.waiting;
      commands = λ p.
          let sent = network_sender M serialize q (output M q s.outputs) in
          let kept = to_list (output M p (clear M q s.outputs)) in
          h.commands p
          ∙ ap (λ l. history M p s.published ++ (flying p s.channel ++ l))
              (output-network_sender M serialize route deserialize blank routing inverse p q
                s.outputs)
          ∙ ap (λ l. history M p s.published ++ l)
              (sym (append_assoc (flying p s.channel) (flying p sent) kept)
                ∙ ap (λ l. l ++ kept)
                    (sym (in_flight-append M serialize route deserialize blank p s.channel sent)));
    }

    IsAccounted-Step :
        IsQuiet publish_status
        → (s t : System M N) → Step on_timer publish_status serialize route deserialize blank s t
        → IsAccounted s
        → IsAccounted t
    IsAccounted-Step quiet s _ (timer e) h = IsAccounted-tick s quiet e h
    IsAccounted-Step quiet s _ (sender p) h = IsAccounted-send p s h
    IsAccounted-Step quiet s _ (callback f) h = record {
      waiting = λ p. pending-callback p f s.node ∙ h.waiting p;
      commands = h.commands;
    }
    IsAccounted-Step quiet s _ (arrival f fs e) h = IsAccounted-arrive f fs s e h

    IsAccounted-Steps :
        IsQuiet publish_status
        → (s t : System M N) → Steps on_timer publish_status serialize route deserialize blank s t
        → IsAccounted s
        → IsAccounted t
    IsAccounted-Steps quiet s _ stop h = h
    IsAccounted-Steps quiet s _ (next {t} {u} r x) h =
        IsAccounted-Step quiet t u x (IsAccounted-Steps quiet s t r h)

    -- Let the serializer read back what it writes, the runtime schedule the action of a frame's
    -- port, and `publishStatus` raise no command. Then after every sequence of steps from a start
    -- with nothing waiting, on each port the commands that `onTimer` has raised are, in the same
    -- order, the published ones, those in the channel, and the one that its sender has yet to take.
    pub raised-eq-accounted :
        IsQuiet publish_status
        → (s t : System M N) → IsInitial s
        → Steps on_timer publish_status serialize route deserialize blank s t
        → (p : Port)
        → history M p t.raised
          ≡ history M p t.published ++ (flying p t.channel ++ to_list (output M p t.outputs))
    raised-eq-accounted quiet s t i r p =
        (IsAccounted-Steps quiet s t r (IsAccounted-initial s i)).commands p
