-- ===== src/Wiring/Network.antt =====
-- The network reactors that the code generator adds to a federate, and the federate that is made of
-- them (lf-src/fed-gen/AutowareFederated/src/federate__vcg.lf, federate__bridge.lf, federate__ss.lf
-- and federate__vs.lf).
use lf_autoware.Base.{ℕ, String, List, [], ◌∷◌}
use lf_autoware.Wiring.{Reactor, reactor, no_more}
use lf_autoware.Wiring.Ports.{input_port, output_port}
use lf_autoware.Wiring.Packages.{inside, own}

-- The port and the federate that the sender of an instance passes to `lf_send_message`.
pub record Send : Type 0 where
  pub sender : String
  pub port : ℕ
  pub federate : ℕ

abbrev pub send : String → ℕ → ℕ → Send
send i port federate = record { sender = i; port = port; federate = federate }

-- FEDERATE_ID, the main reactor, and what its senders send.
pub record Federate : Type 0 where
  pub federate_id : ℕ
  pub main : Reactor
  pub sends : List Send

-- reactor NetworkSender_<n> { input[1] msg: … }
abbrev pub network_sender_of : String → String → Reactor
network_sender_of name type = reactor name (input_port "msg" type ∷ []) no_more []

-- reactor NetworkReceiver_<n> { output msg: … }
abbrev pub network_receiver_of : String → String → Reactor
network_receiver_of name type = reactor name (output_port "msg" type ∷ []) no_more []

-- reactor _<instance><port> { input port0: …  output[1] port: …  port0 -> port }
abbrev pub input_of : String → String → Reactor
input_of name type =
    reactor name (input_port "port0" type ∷ output_port "port" type ∷ []) no_more
      (inside (own "port0") (own "port") ∷ [])
