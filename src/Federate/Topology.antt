-- ===== src/Federate/Topology.antt =====
-- How the 46 preambles fit together: who connects to whom, and who waits for whom.
pub mod Shape
pub mod Links
pub mod Waits
pub mod Access
pub mod Whole
use lf_autoware.Base.{
  ℕ, zero, suc, ◌+◌, ◌<◌, ◌≡◌, refl, ap, ◌↔◌, Bool, true, false, ◌&&◌, ◌||◌, not, Option, none,
  some, List, [], ◌∷◌, map, arith, All, all, all_sound, length, get_elem?, ltb, leb, ◌==◌,
  if◌then◌else◌,
}
use lf_autoware.Federate.Runtime.{
  number_of_federates, Call, mutex_init, init_shutdown_mutex, cond_init, connect_to_rti,
  create_server, connect_to_federate, thread_create,
}
use lf_autoware.Federate.Preamble.{NetworkAction, StaaInit, Preamble}
use lf_autoware.Federate.Preamble.Defs.{connects?, IsPeer}
use lf_autoware.Federate.Triggers.Tables.{IsSized}
use lf_autoware.Federate.Table.{federation}

-- Calls of lf_connect_to_federate.
abbrev pub outgoing : List Call → ℕ
outgoing [] = 0
outgoing (connect_to_federate j ∷ cs) = suc (outgoing cs)
outgoing (_ ∷ cs) = outgoing cs

-- Federates of a list that connect to `j`.
abbrev pub callers : List Preamble → ℕ → ℕ
callers [] j = 0
callers (q ∷ qs) j = (if connects? q.connections j then 1 else 0) + callers qs j

-- A server is created, and then the thread that accepts its connections.
abbrev pub serves? : List Call → Bool
serves? [] = false
serves? (create_server n ∷ thread_create ∷ cs) = true
serves? (_ ∷ cs) = serves? cs

-- The federate with that id connects to `j`.
abbrev pub connects_from? : List Preamble → ℕ → ℕ → Bool
connects_from? qs i j = elim (get_elem? qs i) [ none ↦ false | some q ↦ connects? q.connections j ]

pub record IsConsistent (qs : List Preamble) (p : Preamble) : Type 0 where
  -- the counts are those of the federation
  pub inbound : p.inbound ≡ callers qs p.fed_id
  pub outbound : p.outbound ≡ outgoing p.connections
  -- it serves exactly if some federate connects to it
  pub serves : (serves? p.connections ≡ true) ↔ (0 < p.inbound)
  -- each network action comes from a federate that connects to this one
  pub sources : all (λ a. connects_from? qs a.source_id p.fed_id) p.network_actions ≡ true
  pub reactions : p.num_network_input_reactions ≡ p.action_table_size

abbrev consistent? : List Preamble → Preamble → Bool
consistent? qs p =
    (p.inbound == callers qs p.fed_id)
    && (p.outbound == outgoing p.connections)
    && (if serves? p.connections then ltb 0 p.inbound else p.inbound == 0)
    && all (λ a. connects_from? qs a.source_id p.fed_id) p.network_actions
    && (p.num_network_input_reactions == p.action_table_size)

consistent?_sound :
    (qs : List Preamble) (p : Preamble) → consistent? qs p ≡ true → IsConsistent qs p
consistent?_sound qs p h = record {
  inbound = ground arith;
  outbound = ground arith;
  serves = (λ e. ground arith, λ e. ground arith);
  sources = ground arith;
  reactions = ground arith;
}

federation_consistent : all (consistent? federation) federation ≡ true
federation_consistent = refl

-- In the federation of the 46 preambles the counts of every federate agree with the connections that
-- the others open, a federate serves exactly if one connects to it, and every network action of it
-- names a source federate that connects to it.
pub federation-IsConsistent :
    (i : ℕ) (p : Preamble) → get_elem? federation i ≡ some p → IsConsistent federation p
federation-IsConsistent i p e =
    consistent?_sound federation p
      (all_sound (consistent? federation) federation i p federation_consistent e)
