-- ===== src/Tests/Start.antt =====
-- A runtime in which every call succeeds, and the start of federates over it.
use lf_autoware.Base.{
  ℕ, ◌≡◌, refl, sym, ◌+◌, none, some, [], length, set, replicate, pos, ◌&&◌, ltb,
}
use lf_autoware.Federate.Runtime.{
  number_of_federates, Fed, Call, Runtime, World, mutex_init, init_shutdown_mutex, cond_init,
  connect_to_rti, create_server, connect_to_federate, thread_create,
}
use lf_autoware.Federate.Preamble.{executable_preamble}
use lf_autoware.Federate.Preamble.Defs.{
  IsDocumented, Ensures, IsConnecting, Ended, connects?, target,
}
use lf_autoware.Federate.Preamble.Start.{executable_preamble-Ensures}
use lf_autoware.Federate.Table.{vcg}

-- Each connection gets the next socket number.
abbrev after : Call → ℕ → Fed → Fed
after (connect_to_federate j) n f = record f {
  sockets_for_outbound_p2p_connections = set f.sockets_for_outbound_p2p_connections j (pos n);
}
after mutex_init n f = f
after init_shutdown_mutex n f = f
after cond_init n f = f
after (connect_to_rti h p) n f = f
after (create_server p) n f = f
after thread_create n f = f

abbrev pub all_succeed : Runtime ℕ
all_succeed c n f = some (n + 1, after c n f)

after_eq : (c : Call) (o o' : ℕ) (f f' : Fed) → all_succeed c o f ≡ some (o', f') → after c o f ≡ f'
after_eq c o o' f f' e = cc

keeps :
    (c : Call) (n : ℕ) (f : Fed)
    → ((after c n f).my_fed_id ≡ f.my_fed_id)
      × ((after c n f).number_of_inbound_p2p_connections ≡ f.number_of_inbound_p2p_connections)
      × ((after c n f).number_of_outbound_p2p_connections ≡ f.number_of_outbound_p2p_connections)
      × (length (after c n f).sockets_for_inbound_p2p_connections
          ≡ length f.sockets_for_inbound_p2p_connections)
keeps (connect_to_federate j) n f = (refl, refl, refl, refl)
keeps mutex_init n f = (refl, refl, refl, refl)
keeps init_shutdown_mutex n f = (refl, refl, refl, refl)
keeps cond_init n f = (refl, refl, refl, refl)
keeps (connect_to_rti h p) n f = (refl, refl, refl, refl)
keeps (create_server p) n f = (refl, refl, refl, refl)
keeps thread_create n f = (refl, refl, refl, refl)

quiet : (c : Call) (n : ℕ) (f : Fed) → target c ≡ none → after c n f ≡ f
quiet (connect_to_federate j) n f e = cc
quiet mutex_init n f e = refl
quiet init_shutdown_mutex n f e = refl
quiet cond_init n f e = refl
quiet (connect_to_rti h p) n f e = refl
quiet (create_server p) n f e = refl
quiet thread_create n f e = refl

pub all_succeed-IsDocumented : IsDocumented all_succeed
all_succeed-IsDocumented = record {
  keeps_id = λ c o o' f f' e. rw (sym (after_eq c o o' f f' e)) (keeps c o f);
  keeps_outbound = λ c o o' f f' e t. rw (sym (after_eq c o o' f f' e), quiet c o f t) refl;
  connects = λ j o o' f f' e. (o, rw (sym (after_eq (connect_to_federate j) o o' f f' e)) refl);
}

-- Sockets of an earlier use of the arrays, which the start has to clear.
abbrev pub fresh : World ℕ
fresh = record {
  fed = record {
    my_fed_id = 3;
    number_of_inbound_p2p_connections = 9;
    number_of_outbound_p2p_connections = 9;
    sockets_for_inbound_p2p_connections = replicate number_of_federates (pos 5);
    sockets_for_outbound_p2p_connections = replicate number_of_federates (pos 0);
  };
  os = 11;
  calls = [];
}

executable_preamble-Ensures_example :
    Ensures
      (IsConnecting vcg (λ j. connects? vcg.connections j && ltb j number_of_federates))
      (Ended all_succeed vcg)
      (executable_preamble all_succeed vcg fresh)
executable_preamble-Ensures_example =
    executable_preamble-Ensures all_succeed all_succeed-IsDocumented vcg fresh refl refl refl
      (tt, tt)
