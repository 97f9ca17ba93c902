-- ===== src/Federate/Preamble/Documented.antt =====
-- One runtime call changes the identity and the socket arrays as federate.h says.
use lf_autoware.Base.{
  ℕ, ◌≡◌, refl, ◌∙◌, Bool, false, ◌&&◌, ◌||◌, some, List, [], ◌∷◌, arith, length, ltb, ◌==◌,
  length-set, ℤ,
}
use lf_autoware.Federate.Runtime.{
  number_of_federates, Fed, Call, Runtime, mutex_init, init_shutdown_mutex, cond_init,
  connect_to_rti, create_server, connect_to_federate, thread_create,
}
use lf_autoware.Federate.Preamble.{Preamble}
use lf_autoware.Federate.Preamble.Defs.{IsDocumented, IsNamed, is_open, connects?}
use lf_autoware.Federate.Preamble.Sockets.{is_open-set}

or_assoc_false : (a b c : Bool) → ((a && b) || c) ≡ (((a || false) && b) || c)
or_assoc_false a b c = ground arith

module _ {O : Type 0} (rt : Runtime O) (doc : IsDocumented rt) where
  pub IsNamed-call :
      (p : Preamble) (c : Call) (o o' : O) (f f' : Fed)
      → rt c o f ≡ some (o', f')
      → IsNamed p f
      → IsNamed p f'
  IsNamed-call p c o o' f f' e n = record {
    id = (doc.keeps_id c o o' f f' e).0 ∙ n.id;
    inbound = (doc.keeps_id c o o' f f' e).1 ∙ n.inbound;
    outbound = (doc.keeps_id c o o' f f' e).2 ∙ n.outbound;
  }

  -- The outbound sockets after a call, of which federate.h says all.
  abbrev pub Adds : Call → List ℤ → List ℤ → Type 0
  Adds c xs ys =
      (length ys ≡ number_of_federates)
      × ((j : ℕ)
          → is_open ys j ≡ ((connects? (c ∷ []) j && ltb j number_of_federates) || is_open xs j))

  Adds-same :
      (c : Call) (xs ys : List ℤ)
      → ((j : ℕ) → connects? (c ∷ []) j ≡ false)
      → length xs ≡ number_of_federates
      → ys ≡ xs
      → Adds c xs ys
  Adds-same c xs ys t n e = (rw e n, λ j. rw (e, t j))

  pub outbound_after :
      (c : Call) (o o' : O) (f f' : Fed)
      → rt c o f ≡ some (o', f')
      → length f.sockets_for_outbound_p2p_connections ≡ number_of_federates
      → Adds c f.sockets_for_outbound_p2p_connections f'.sockets_for_outbound_p2p_connections
  outbound_after (connect_to_federate k) o o' f f' e n =
      let (s, q) = doc.connects k o o' f f' e in
      (
        rw (q, length-set) n,
        λ j.
            rw (q, is_open-set f.sockets_for_outbound_p2p_connections k s j, n)
              (or_assoc_false (k == j) (ltb j number_of_federates) _),
      )
  outbound_after mutex_init o o' f f' e n =
      Adds-same mutex_init _ _ (λ j. refl) n (doc.keeps_outbound mutex_init o o' f f' e refl)
  outbound_after init_shutdown_mutex o o' f f' e n =
      Adds-same init_shutdown_mutex _ _ (λ j. refl) n
        (doc.keeps_outbound init_shutdown_mutex o o' f f' e refl)
  outbound_after cond_init o o' f f' e n =
      Adds-same cond_init _ _ (λ j. refl) n (doc.keeps_outbound cond_init o o' f f' e refl)
  outbound_after (connect_to_rti a b) o o' f f' e n =
      Adds-same (connect_to_rti a b) _ _ (λ j. refl) n
        (doc.keeps_outbound (connect_to_rti a b) o o' f f' e refl)
  outbound_after (create_server a) o o' f f' e n =
      Adds-same (create_server a) _ _ (λ j. refl) n
        (doc.keeps_outbound (create_server a) o o' f f' e refl)
  outbound_after thread_create o o' f f' e n =
      Adds-same thread_create _ _ (λ j. refl) n (doc.keeps_outbound thread_create o o' f f' e refl)
