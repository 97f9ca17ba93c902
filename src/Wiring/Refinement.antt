-- ===== src/Wiring/Refinement.antt =====
-- The generated federation carries out the connections of AutowareFederated.lf.
use mathlib.Core.Path.{subst}
use mathlib.Core.Option
use lf_autoware.Base.{
  ℕ, zero, suc, ◌≡◌, refl, sym, ap, ◌∙◌, ◌↔◌, Option, none, some, List, [], ◌∷◌, All, get_elem?,
  if◌then◌else◌, arith, ◌==◌,
}
use lf_autoware.Federate.Preamble.{Preamble}
use lf_autoware.Federate.Triggers.{read, globals, initialize_triggers_for_federate}
use lf_autoware.Federate.Table.{federation}
use lf_autoware.Federate.Topology.Shape.{federation_ids}
use lf_autoware.Command.Network.{msg_type_p2p_message, Routing}
use lf_autoware.Command.Delivery.Flight.{IsRouting}
use lf_autoware.Wiring.{Pin, Edge, edges, follow}
use lf_autoware.Wiring.Reach.{Leads, follow-one}
use lf_autoware.Wiring.Programs.{autoware_federated}
use lf_autoware.Wiring.Network.{Send, Federate}
use lf_autoware.Wiring.Generated.{generated}
use lf_autoware.Wiring.Compiled.{
  frame, to_receiver, action_table, to_federate, send_edges, federate_edges, compiled_edges,
  located,
}

-- A routing that can be computed.
abbrev direct : Routing
direct table id f =
    if f.federate == id then Option.map (λ self. (self, f.message)) (read table f.port) else none

direct-IsRouting : IsRouting direct
direct-IsRouting table id port bytes = ground arith

routed :
    (route : Routing)
    → IsRouting route
    → (s : Send) (p : Preamble) → get_elem? federation s.federate ≡ some p
    → route (action_table p) p.fed_id (frame s)
      ≡ Option.map (λ self. (self, [])) (read (action_table p) s.port)
routed route doc s p e =
    subst
      (λ id.
        route (action_table p) p.fed_id (record {
          message_type = msg_type_p2p_message;
          port = s.port;
          federate = id;
          message = [];
        })
        ≡ Option.map (λ self. (self, [])) (read (action_table p) s.port))
      (federation_ids s.federate p e) (doc (action_table p) p.fed_id s.port [])

module _ (route : Routing) (doc : IsRouting route) where
  to_federate-direct :
      (f : Federate) (s : Send) (g : Option Federate) (p : Option Preamble)
      → get_elem? federation s.federate ≡ p
      → to_federate route f s g p ≡ to_federate direct f s g p
  to_federate-direct f s none p e = refl
  to_federate-direct f s (some g) none e = refl
  to_federate-direct f s (some g) (some p) e =
      ap (to_receiver f s g) (routed route doc s p e ∙ sym (routed direct direct-IsRouting s p e))

  send_edges-direct :
      (f : Federate) (ss : List Send) → send_edges route f ss ≡ send_edges direct f ss
  send_edges-direct f [] = refl
  send_edges-direct f (s ∷ ss) =
      rw
        (
          to_federate-direct f s (get_elem? generated s.federate) (get_elem? federation s.federate)
              refl,
          send_edges-direct f ss,
        )
        refl

  federate_edges-direct : (fs : List Federate) → federate_edges route fs ≡ federate_edges direct fs
  federate_edges-direct [] = refl
  federate_edges-direct (f ∷ fs) = rw (send_edges-direct f f.sends, federate_edges-direct fs) refl

abbrev IsCarried : Edge → Type 0
IsCarried c = follow 6 (compiled_edges direct) (located c.0) ≡ some (located c.1 ∷ [])

carried : All IsCarried (edges [] autoware_federated)
unfolding follow initialize_triggers_for_federate globals
carried = (refl, (refl, (refl, (refl, (refl, tt)))))

All_at :
    {A : Type 0} (P : A → Type 0) (xs : List A) (k : ℕ) (a : A)
    → All P xs
    → get_elem? xs k ≡ some a
    → P a
All_at P [] k a h e = absurd (ground arith)
All_at P (x ∷ xs) zero a h e = let same : x ≡ a = cc in subst P same h.0
All_at P (x ∷ xs) (suc k) a h e = All_at P xs k a h.1 e

-- Let the runtime schedule the action of a frame's port. Then for each connection of
-- AutowareFederated.lf, a message that leaves its source in the generated federation, by way of the
-- senders, the network and the receivers, ends at the target of the connection and nowhere else.
pub compiled-connection :
    (route : Routing)
    → IsRouting route
    → (k : ℕ) (c : Edge) → get_elem? (edges [] autoware_federated) k ≡ some c
    → (q : Pin) → Leads (compiled_edges route) (located c.0) q ↔ (q ≡ located c.1)
compiled-connection route doc k c e q =
    follow-one (compiled_edges route) 6 (located c.0) (located c.1)
      (ap (λ es. follow 6 es (located c.0)) (federate_edges-direct route doc generated)
        ∙ All_at IsCarried (edges [] autoware_federated) k c carried e)
      q
