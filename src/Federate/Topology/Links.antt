-- ===== src/Federate/Topology/Links.antt =====
-- The start of one federate gives another the socket that it waits for.
use mathlib.Core.Path.{subst}
use lf_autoware.Base.{
  ℕ, ◌≡◌, ◌∙◌, true, ◌&&◌, some, List, [], arith, length, get_elem?, get_elem?_lt, ltb, all_sound,
  Option-cases, inl, inr,
}
use lf_autoware.Federate.Runtime.{number_of_federates, Runtime, World, Outcome, returned, exited}
use lf_autoware.Federate.Preamble.{NetworkAction, Preamble, executable_preamble}
use lf_autoware.Federate.Preamble.Defs.{
  IsDocumented, IsConnecting, Ensures, Ended, Failed, is_open, connects?,
}
use lf_autoware.Federate.Preamble.Start.{executable_preamble-Ensures}
use lf_autoware.Federate.Table.{federation}
use lf_autoware.Federate.Topology.{connects_from?, federation-IsConsistent}
use lf_autoware.Federate.Topology.Shape.{federation_ids, federation-IsPeer}

-- A world in which no runtime call has been made and the arrays have the declared size.
pub record IsFresh {O : Type 0} (w : World O) : Type 0 where
  pub calls : w.calls ≡ []
  pub inbound : length w.fed.sockets_for_inbound_p2p_connections ≡ number_of_federates
  pub outbound : length w.fed.sockets_for_outbound_p2p_connections ≡ number_of_federates

-- The start of `q` opens an outbound socket to federate `i`, or fails.
abbrev pub OpensSocket : {O : Type 0} → Runtime O → Preamble → World O → ℕ → Type 0
OpensSocket rt q w i =
    Ensures (λ v. is_open v.fed.sockets_for_outbound_p2p_connections i ≡ true) (Failed rt)
      (executable_preamble rt q w)

Ensures-weaken :
    {O : Type 0} (Q R E F : World O → Type 0) (o : Outcome O)
    → ((w : World O) → Q w → R w)
    → ((w : World O) → E w → F w)
    → Ensures Q E o
    → Ensures R F o
Ensures-weaken Q R E F (returned w) f g h = f w h
Ensures-weaken Q R E F (exited w) f g h = g w h

connects_from?_elim :
    (qs : List Preamble) (s i : ℕ)
    → connects_from? qs s i ≡ true
    → (q : Preamble) × (get_elem? qs s ≡ some q) × (connects? q.connections i ≡ true)
connects_from?_elim qs s i h = elim (Option-cases (get_elem? qs s)) [
  | inl e ↦ absurd (ground arith)
  | inr (q, e) ↦ (q, e, ground arith)
]

-- For every network action of every federate of the federation, the source federate that it names
-- is in the federation, and the start of that federate, over any runtime that keeps to federate.h
-- and from a world in which no call has been made and the arrays have the declared size, opens an
-- outbound socket to this one, unless a runtime call fails and ends it.
pub source_socket_open :
    {O : Type 0} (rt : Runtime O)
    → IsDocumented rt
    → (w : World O) → IsFresh w
    → (i : ℕ) (p : Preamble) (k : ℕ) (a : NetworkAction) → get_elem? federation i ≡ some p
    → get_elem? p.network_actions k ≡ some a
    → (q : Preamble) × (get_elem? federation a.source_id ≡ some q) × OpensSocket rt q w i
source_socket_open {O} rt doc w fresh i p k a hp ha =
    let (q, e, c) = connects_from?_elim federation a.source_id i (
      subst (λ j. connects_from? federation a.source_id j ≡ true) (federation_ids i p hp)
        (all_sound (λ a. connects_from? federation a.source_id p.fed_id) p.network_actions k a
          (federation-IsConsistent i p hp).sources ha)) in
    (
      q,
      e,
      Ensures-weaken (IsConnecting q (λ j. connects? q.connections j && ltb j number_of_federates))
          (λ v. is_open v.fed.sockets_for_outbound_p2p_connections i ≡ true) (Ended rt q)
          (Failed rt) (executable_preamble rt q w) (λ v h. h.opens i ∙ rw c (below i p hp))
          (λ v h. h.1)
          (executable_preamble-Ensures rt doc q w fresh.calls fresh.inbound fresh.outbound
            (federation-IsPeer a.source_id q e)),
    )
  where
    below :
        (i : ℕ) (p : Preamble) → get_elem? federation i ≡ some p → ltb i number_of_federates ≡ true
    below i p e = ground (arith, get_elem?_lt federation i p e)
