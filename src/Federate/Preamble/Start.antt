-- ===== src/Federate/Preamble/Start.antt =====
-- What a run of `_lf_executable_preamble` does, over any runtime that keeps to federate.h.
use lf_autoware.Base.{
  ℕ, ◌≡◌, refl, ap, ◌∙◌, Bool, false, ◌&&◌, ◌||◌, none, some, List, [], ◌∷◌, ◌++◌, arith, All,
  length, ltb, Option-cases, inl, inr, length-replicate, negsuc,
}
use lf_autoware.Federate.Runtime.{
  number_of_federates, Fed, Call, Runtime, World, Outcome, returned, exited, then_run, call,
  mutex_init, init_shutdown_mutex, cond_init, connect_to_rti, create_server, connect_to_federate,
  thread_create, finish,
}
use lf_autoware.Federate.Preamble.{Preamble, set_up_fed, call_all, executable_preamble}
use lf_autoware.Federate.Preamble.Defs.{
  target, IsDocumented, IsNamed, no_sockets, IsReady, is_open, connects?, IsPeer, Ensures, Logged,
  Ended, IsConnecting,
}
use lf_autoware.Federate.Preamble.Sockets.{is_open-replicate, clear-all}
use lf_autoware.Federate.Preamble.Documented.{IsNamed-call, outbound_after}

All-snoc :
    {A : Type 0} (P : A → Type 0) (xs : List A) (a : A) → All P xs → P a → All P (xs ++ a ∷ [])
All-snoc P [] a h q = (q, tt)
All-snoc P (x ∷ xs) a h q = (h.0, All-snoc P xs a h.1 q)

or_false : (b : Bool) → (b || false) ≡ b
or_false b = ground arith

module _ {O : Type 0} (rt : Runtime O) (doc : IsDocumented rt) (p : Preamble) where
  -- Sizes of the arrays, which C fixes.
  record IsSized (w : World O) : Type 0 where
    logged : Logged p w
    inbound : length w.fed.sockets_for_inbound_p2p_connections ≡ number_of_federates
    outbound : length w.fed.sockets_for_outbound_p2p_connections ≡ number_of_federates

  Ensures-map :
      (Q R : World O → Type 0) (o : Outcome O)
      → ((w : World O) → Q w → R w)
      → Ensures Q (Ended rt p) o
      → Ensures R (Ended rt p) o
  Ensures-map Q R (returned w) f h = f w h
  Ensures-map Q R (exited w) f h = h

  Ensures-bind :
      {Q : World O → Type 0} (R : World O → Type 0) (o : Outcome O) (k : World O → Outcome O)
      → Ensures Q (Ended rt p) o
      → ((w : World O) → Q w → Ensures R (Ended rt p) (k w))
      → Ensures R (Ended rt p) (then_run o k)
  Ensures-bind R (returned w) k h f = f w h
  Ensures-bind R (exited w) k h f = h

  -- One call: it is logged in the state it was made in, and ends the run or goes on.
  Ensures-call :
      (Q : World O → Type 0) (c : Call) (w : World O)
      → Logged p w
      → IsReady p (c, w.fed)
      → ((os : O) (fed : Fed)
          → rt c w.os w.fed ≡ some (os, fed)
          → Logged p (record w { calls = w.calls ++ (c, w.fed) ∷ [] })
          → Q (record { fed = fed; os = os; calls = w.calls ++ (c, w.fed) ∷ [] }))
      → Ensures Q (Ended rt p) (call rt c w)
  unfolding call
  Ensures-call Q c w h r k = elim (Option-cases (rt c w.os w.fed)) [
    | inl e ↦ rw (e, finish) (all, (c, w.calls, refl, e))
    | inr (a, e) ↦ rw (e, finish) (k a.0 a.1 e all)
  ]
    where
      all : Logged p (record w { calls = w.calls ++ (c, w.fed) ∷ [] })
      all = All-snoc (IsReady p) w.calls (c, w.fed) h r

  abbrev opened : List Call → (ℕ → Bool) → ℕ → Bool
  opened cs f j = (connects? cs j && ltb j number_of_federates) || f j

  IsSized-call :
      (c : Call) (w : World O)
      → target c ≡ none
      → IsReady p (c, w.fed)
      → IsSized w
      → Ensures IsSized (Ended rt p) (call rt c w)
  IsSized-call c w t r h = Ensures-call IsSized c w h.logged r λ os fed e all. record {
    logged = all;
    inbound = (doc.keeps_id c w.os os w.fed fed e).3 ∙ h.inbound;
    outbound = rw (doc.keeps_outbound c w.os os w.fed fed e t) h.outbound;
  }

  IsConnecting-call :
      (f : ℕ → Bool) (c : Call) (w : World O)
      → IsReady p (c, w.fed)
      → IsConnecting p f w
      → Ensures (IsConnecting p (opened (c ∷ []) f)) (Ended rt p) (call rt c w)
  IsConnecting-call f c w r h =
      Ensures-call (IsConnecting p (opened (c ∷ []) f)) c w h.logged r λ os fed e all. record {
        logged = all;
        named = IsNamed-call rt doc p c w.os os w.fed fed e h.named;
        size = (outbound_after rt doc c w.os os w.fed fed e h.size).0;
        opens = λ j.
            (outbound_after rt doc c w.os os w.fed fed e h.size).1 j
            ∙ ap (λ b. (connects? (c ∷ []) j && ltb j number_of_federates) || b) (h.opens j);
      }

  peer-IsReady : (c : Call) (f : Fed) → IsPeer c → IsNamed p f → IsReady p (c, f)
  peer-IsReady mutex_init f h n = tt
  peer-IsReady init_shutdown_mutex f h n = tt
  peer-IsReady cond_init f h n = tt
  peer-IsReady (connect_to_rti a b) f h n = absurd h
  peer-IsReady (create_server a) f h n = n
  peer-IsReady (connect_to_federate j) f h n = n
  peer-IsReady thread_create f h n = n

  IsConnecting-eq :
      (f g : ℕ → Bool) (w : World O)
      → ((j : ℕ) → f j ≡ g j)
      → IsConnecting p f w
      → IsConnecting p g w
  IsConnecting-eq f g w e h = record {
    logged = h.logged;
    named = h.named;
    size = h.size;
    opens = λ j. h.opens j ∙ e j;
  }

  opened-opened :
      (f : ℕ → Bool) (c : Call) (cs : List Call) (j : ℕ)
      → opened cs (opened (c ∷ []) f) j ≡ opened (c ∷ cs) f j
  opened-opened f (connect_to_federate k) cs j = ground arith
  opened-opened f _ cs j = ground arith

  IsConnecting-call_all :
      (cs : List Call) (f : ℕ → Bool) (w : World O)
      → All IsPeer cs
      → IsConnecting p f w
      → Ensures (IsConnecting p (opened cs f)) (Ended rt p) (call_all rt cs w)
  unfolding call_all
  IsConnecting-call_all [] f w h s = s
  IsConnecting-call_all (c ∷ cs) f w h s =
      Ensures-bind (IsConnecting p (opened (c ∷ cs) f)) (call rt c w) (call_all rt cs)
        (IsConnecting-call f c w (peer-IsReady c w.fed h.0 s.named) s)
        λ w' s'.
          Ensures-map (IsConnecting p (opened cs (opened (c ∷ []) f)))
            (IsConnecting p (opened (c ∷ cs) f)) (call_all rt cs w')
            (λ v.
              IsConnecting-eq (opened cs (opened (c ∷ []) f)) (opened (c ∷ cs) f) v
                (opened-opened f c cs))
            (IsConnecting-call_all cs (opened (c ∷ []) f) w' h.1 s')

  -- Ready for lf_connect_to_rti: named, and with no socket.
  record IsPrepared (w : World O) : Type 0 where
    logged : Logged p w
    named : IsNamed p w.fed
    inbound : w.fed.sockets_for_inbound_p2p_connections ≡ no_sockets
    outbound : w.fed.sockets_for_outbound_p2p_connections ≡ no_sockets

  IsPrepared-set_up_fed :
      (w : World O) → IsSized w → Ensures IsPrepared (Ended rt p) (set_up_fed p w)
  unfolding set_up_fed
  IsPrepared-set_up_fed w h = record {
    logged = h.logged;
    named = record { id = refl; inbound = refl; outbound = refl };
    inbound = clear-all w.fed.sockets_for_inbound_p2p_connections h.inbound;
    outbound = clear-all w.fed.sockets_for_outbound_p2p_connections h.outbound;
  }

  IsConnecting-connect_to_rti :
      (w : World O)
      → IsPrepared w
      → Ensures
          (IsConnecting p (λ j. false))
          (Ended rt p)
          (call rt (connect_to_rti "localhost" 0) w)
  IsConnecting-connect_to_rti w h =
      Ensures-map (IsConnecting p (opened (rti ∷ []) (λ j. false))) (IsConnecting p (λ j. false))
        (call rt rti w)
        (λ v. IsConnecting-eq (opened (rti ∷ []) (λ j. false)) (λ j. false) v (λ j. refl))
        (IsConnecting-call (λ j. false) rti w (h.named, h.inbound, h.outbound)
          (record {
            logged = h.logged;
            named = h.named;
            size = ap length h.outbound ∙ length-replicate number_of_federates (negsuc 0);
            opens =
                λ j. ap (λ xs. is_open xs j) h.outbound ∙ is_open-replicate number_of_federates j;
          }))
    where
      rti : Call
      rti = connect_to_rti "localhost" 0

  -- Let the runtime keep to federate.h, and the calls of the preamble after lf_connect_to_rti be
  -- no further call of it. A start from arrays of the declared size and an empty log ends in one
  -- of two ways. It returns with the identity and the counts of the preamble, and an outbound
  -- socket is open exactly for the federates that the preamble connects to; or it exits in a
  -- runtime call that failed. Either way lf_connect_to_rti, if it was called, was called with the
  -- identity set and both socket arrays cleared, and every later call with the identity set.
  pub executable_preamble-Ensures :
      (w : World O)
      → w.calls ≡ []
      → length w.fed.sockets_for_inbound_p2p_connections ≡ number_of_federates
      → length w.fed.sockets_for_outbound_p2p_connections ≡ number_of_federates
      → All IsPeer p.connections
      → Ensures
          (IsConnecting p (λ j. connects? p.connections j && ltb j number_of_federates))
          (Ended rt p)
          (executable_preamble rt p w)
  unfolding executable_preamble
  executable_preamble-Ensures w e i o peers =
      Ensures-bind final connecting (call_all rt p.connections)
        (Ensures-bind (IsConnecting p (λ j. false)) prepared
          (call rt (connect_to_rti "localhost" 0))
          (Ensures-bind IsPrepared sized (set_up_fed p)
            (Ensures-bind IsSized shut (call rt cond_init)
              (Ensures-bind IsSized (call rt mutex_init w) (call rt init_shutdown_mutex)
                (IsSized-call mutex_init w refl tt start)
                (λ v. IsSized-call init_shutdown_mutex v refl tt))
              (λ v. IsSized-call cond_init v refl tt))
            IsPrepared-set_up_fed)
          IsConnecting-connect_to_rti)
        (λ v h.
          Ensures-map (IsConnecting p (opened p.connections (λ j. false))) final
            (call_all rt p.connections v)
            (λ u.
              IsConnecting-eq (opened p.connections (λ j. false))
                (λ j. connects? p.connections j && ltb j number_of_federates) u
                (λ j. or_false (connects? p.connections j && ltb j number_of_federates)))
            (IsConnecting-call_all p.connections (λ j. false) v peers h))
    where
      final : World O → Type 0
      final = IsConnecting p (λ j. connects? p.connections j && ltb j number_of_federates)

      shut : Outcome O
      shut = then_run (call rt mutex_init w) (call rt init_shutdown_mutex)

      sized : Outcome O
      sized = then_run shut (call rt cond_init)

      prepared : Outcome O
      prepared = then_run sized (set_up_fed p)

      connecting : Outcome O
      connecting = then_run prepared (call rt (connect_to_rti "localhost" 0))

      start : IsSized w
      start = record { logged = rw e tt; inbound = i; outbound = o }
