-- ===== src/Federate/Topology/Shape.antt =====
-- The shape of each preamble of the federation: its sizes, its calls, its identity.
use lf_autoware.Base.{
  ℕ, zero, suc, ◌+◌, ◌≡◌, refl, Bool, true, false, ◌&&◌, some, List, [], ◌∷◌, arith, All, all,
  all_sound, length, get_elem?, ltb, ◌==◌,
}
use lf_autoware.Federate.Runtime.{
  number_of_federates, Call, mutex_init, init_shutdown_mutex, cond_init, connect_to_rti,
  create_server, connect_to_federate, thread_create,
}
use lf_autoware.Federate.Preamble.{StaaInit, Preamble}
use lf_autoware.Federate.Preamble.Defs.{IsPeer}
use lf_autoware.Federate.Triggers.Tables.{IsSized, IsSizedEntry}
use lf_autoware.Federate.Table.{federation}

abbrev sized_entry? : StaaInit → Bool
sized_entry? s =
    (s.num_actions == length s.action_indices) && (s.allocated == length s.action_indices)

-- Sizes, peers and the position in the list, as tests.
abbrev sized? : Preamble → Bool
sized? p =
    (length p.network_actions == p.action_table_size)
    && (p.action_table_length == p.action_table_size)
    && (p.action_delay_table_length == p.action_table_size)
    && (p.staa_lst_length == length p.staa_lst)
    && (p.staa_lst_size == p.staa_lst_length)
    && all sized_entry? p.staa_lst

abbrev peer? : Call → Bool
peer? (connect_to_rti h n) = false
peer? mutex_init = true
peer? init_shutdown_mutex = true
peer? cond_init = true
peer? (create_server n) = true
peer? (connect_to_federate j) = ltb j number_of_federates
peer? thread_create = true

IsPeer-peer? : (c : Call) → peer? c ≡ true → IsPeer c
IsPeer-peer? (connect_to_rti h n) e = cc
IsPeer-peer? mutex_init e = tt
IsPeer-peer? init_shutdown_mutex e = tt
IsPeer-peer? cond_init e = tt
IsPeer-peer? (create_server n) e = tt
IsPeer-peer? (connect_to_federate j) e = tt
IsPeer-peer? thread_create e = tt

IsPeer-all : (cs : List Call) → all peer? cs ≡ true → All IsPeer cs
IsPeer-all [] h = tt
IsPeer-all (c ∷ cs) h = (IsPeer-peer? c (ground arith), IsPeer-all cs (ground arith))

All-IsSizedEntry : (ss : List StaaInit) → all sized_entry? ss ≡ true → All IsSizedEntry ss
All-IsSizedEntry [] h = tt
All-IsSizedEntry (s ∷ ss) h =
    (record { count = ground arith; room = ground arith }, All-IsSizedEntry ss (ground arith))

federation_sized : all sized? federation ≡ true
federation_sized = refl

federation_peers : all (λ p. all peer? p.connections) federation ≡ true
federation_peers = refl

pub federation-IsSized : (i : ℕ) (p : Preamble) → get_elem? federation i ≡ some p → IsSized p
federation-IsSized i p e =
    let h = all_sound sized? federation i p federation_sized e in
    record {
      actions = ground arith;
      table = ground arith;
      delays = ground arith;
      entries = ground arith;
      size = ground arith;
      staas = All-IsSizedEntry p.staa_lst (ground arith);
    }

pub federation-IsPeer :
    (i : ℕ) (p : Preamble) → get_elem? federation i ≡ some p → All IsPeer p.connections
federation-IsPeer i p e =
    IsPeer-all p.connections
      (all_sound (λ p. all peer? p.connections) federation i p federation_peers e)

numbered? : ℕ → List Preamble → Bool
numbered? n [] = true
numbered? n (p ∷ ps) = (p.fed_id == n) && numbered? (suc n) ps

numbered?_sound :
    (n : ℕ) (ps : List Preamble) (i : ℕ) (p : Preamble)
    → numbered? n ps ≡ true
    → get_elem? ps i ≡ some p
    → p.fed_id ≡ n + i
unfolding numbered?
numbered?_sound n [] i p h e = ground arith
numbered?_sound n (q ∷ qs) zero p h e = ground arith
numbered?_sound n (q ∷ qs) (suc i) p h e =
    omega (arith, numbered?_sound (suc n) qs i p (ground arith) e)

-- The identity that a preamble sets is its position in `federation`.
pub federation_ids : (i : ℕ) (p : Preamble) → get_elem? federation i ≡ some p → p.fed_id ≡ i
unfolding numbered?
federation_ids i p e = omega (arith, numbered?_sound 0 federation i p refl e)
