-- ===== src/Federate/Topology/Whole.antt =====
-- The sockets of the whole federation once every federate has started.
use mathlib.Core.Path.{subst}
use lf_autoware.Base.{
  ℕ, zero, suc, ◌+◌, ◌≡◌, refl, sym, ap, ◌∙◌, true, ◌&&◌, some, List, [], ◌∷◌, arith, All,
  get_elem?, get_elem?_lt, ltb, if◌then◌else◌,
}
use lf_autoware.Federate.Runtime.{number_of_federates, Runtime, World, returned}
use lf_autoware.Federate.Preamble.{Preamble, executable_preamble}
use lf_autoware.Federate.Preamble.Defs.{
  IsDocumented, IsConnecting, IsPeer, Ensures, Ended, is_open, connects?,
}
use lf_autoware.Federate.Preamble.Start.{executable_preamble-Ensures}
use lf_autoware.Federate.Table.{federation}
use lf_autoware.Federate.Topology.{callers, federation-IsConsistent}
use lf_autoware.Federate.Topology.Shape.{federation_ids, federation-IsPeer}
use lf_autoware.Federate.Topology.Links.{IsFresh}

-- The worlds in which the federates are after their starts, one for each preamble.
pub data Started {O : Type 0} (rt : Runtime O) : List Preamble → List (World O) → Type 0 where
  nobody : Started rt [] []
  one_more :
      {qs : List Preamble} {vs : List (World O)} (q : Preamble) (w v : World O)
      → IsFresh w
      → executable_preamble rt q w ≡ returned v
      → Started rt qs vs
      → Started rt (q ∷ qs) (v ∷ vs)

-- How many federates have an open outbound socket to federate `i`.
abbrev pub opened_to : {O : Type 0} → List (World O) → ℕ → ℕ
opened_to [] i = 0
opened_to (v ∷ vs) i =
    (if is_open v.fed.sockets_for_outbound_p2p_connections i then 1 else 0) + opened_to vs i

All-get_elem? :
    {A : Type 0} (P : A → Type 0) (xs : List A)
    → ((i : ℕ) (a : A) → get_elem? xs i ≡ some a → P a)
    → All P xs
All-get_elem? P [] f = tt
All-get_elem? P (x ∷ xs) f = (f 0 x refl, All-get_elem? P xs (λ i. f (suc i)))

module _ {O : Type 0} (rt : Runtime O) (doc : IsDocumented rt) where
  connected :
      (q : Preamble) (w v : World O)
      → IsFresh w
      → executable_preamble rt q w ≡ returned v
      → All IsPeer q.connections
      → IsConnecting q (λ j. connects? q.connections j && ltb j number_of_federates) v
  connected q w v fresh e peers =
      subst
        (Ensures (IsConnecting q (λ j. connects? q.connections j && ltb j number_of_federates))
          (Ended rt q))
        e (executable_preamble-Ensures rt doc q w fresh.calls fresh.inbound fresh.outbound peers)

  opened_to-callers :
      (qs : List Preamble) (vs : List (World O)) (i : ℕ)
      → Started rt qs vs
      → All (λ q. All IsPeer q.connections) qs
      → ltb i number_of_federates ≡ true
      → opened_to vs i ≡ callers qs i
  opened_to-callers _ _ i nobody h b = refl
  opened_to-callers _ _ i (one_more {qs} {vs} q w v fresh e r) h b =
      ground (arith, (connected q w v fresh e h.0).opens i, opened_to-callers qs vs i r h.1 b)

  named_inbound :
      (qs : List Preamble) (vs : List (World O)) (i : ℕ) (v : World O)
      → Started rt qs vs
      → All (λ q. All IsPeer q.connections) qs
      → get_elem? vs i ≡ some v
      → (q : Preamble) × (get_elem? qs i ≡ some q)
        × (v.fed.number_of_inbound_p2p_connections ≡ q.inbound)
  named_inbound _ _ i u nobody h e = absurd (ground arith)
  named_inbound _ _ zero u (one_more q w v fresh s r) h e =
      let same : v ≡ u = cc in
      (
        q,
        refl,
        subst (λ (x : World O). x.fed.number_of_inbound_p2p_connections ≡ q.inbound) same
            (connected q w v fresh s h.0).named.inbound,
      )
  named_inbound _ _ (suc i) u (one_more {qs} {vs} q w v fresh s r) h e =
      named_inbound qs vs i u r h.1 e

  -- Over any runtime that keeps to federate.h, once all 46 federates have started, each in a
  -- world in which no call has been made and the arrays have the declared size, and have
  -- returned, the number of inbound connections that each federate waits for is the number of
  -- federates with an open outbound socket to it.
  pub inbound-opened_to :
      (vs : List (World O)) (i : ℕ) (v : World O)
      → Started rt federation vs
      → get_elem? vs i ≡ some v
      → v.fed.number_of_inbound_p2p_connections ≡ opened_to vs i
  inbound-opened_to vs i v s e =
      let peers : All (λ q. All IsPeer q.connections) federation =
        All-get_elem? (λ q. All IsPeer q.connections) federation federation-IsPeer in
      let (p, f, n) = named_inbound federation vs i v s peers e in
      n
      ∙ (federation-IsConsistent i p f).inbound
      ∙ ap (callers federation) (federation_ids i p f)
      ∙ sym (
          opened_to-callers federation vs i s peers (ground (arith, get_elem?_lt federation i p f)))
