-- ===== src/Federate/Rendezvous/Progress.antt =====
-- No federate waits for ever.

use lf_autoware.Base.{
  ℕ, zero, suc, ◌+◌, ◌≡◌, ◌⊎◌, inl, inr, refl, ap, ◌∙◌, Bool, true, false, some, List, [], ◌∷◌,
  length, set, get_elem?, Bool-cases, arith, All,
}
use lf_autoware.Federate.Runtime.{
  Call, mutex_init, init_shutdown_mutex, cond_init, connect_to_rti, create_server,
  connect_to_federate, thread_create,
}
use lf_autoware.Federate.Preamble.Defs.{connects?}
use lf_autoware.Federate.Rendezvous.{
  Starting, can_make, made, Step, make, Steps, stop, next, steps, calls_left, initial,
}
use lf_autoware.Federate.Rendezvous.Served.{
  accepts_first, some_inj, IsFree, IsFree-Steps, initial-IsFree,
}

-- A federate with calls left, if there is one.
pending :
    (css : List (List Call))
    → All (λ cs. cs ≡ []) css
      ⊎ ((i : ℕ) × (c : Call) × (cs : List Call) × (get_elem? css i ≡ some (c ∷ cs)))
pending [] = inl tt
pending ((c ∷ cs) ∷ css) = inr (0, c, cs, refl)
pending ([] ∷ css) = elim (pending css) [
  | inl h ↦ inl (refl, h)
  | inr (i, c, cs, e) ↦ inr (suc i, c, cs, e)
]

blocked :
    (accepting : ℕ → Bool) (c : Call) (cs : List Call)
    → can_make accepting c ≡ false
    → (j : ℕ) × (connects? (c ∷ cs) j ≡ true) × (accepting j ≡ false)
blocked accepting (connect_to_federate j) cs h = (j, ground arith, h)
blocked accepting mutex_init cs h = absurd (ground arith)
blocked accepting init_shutdown_mutex cs h = absurd (ground arith)
blocked accepting cond_init cs h = absurd (ground arith)
blocked accepting (connect_to_rti n m) cs h = absurd (ground arith)
blocked accepting (create_server n) cs h = absurd (ground arith)
blocked accepting thread_create cs h = absurd (ground arith)

unblocked :
    (accepting : ℕ → Bool) (b : Bool) (ds : List Call)
    → accepts_first b ds ≡ true
    → (d : Call) × (ds' : List Call) × (ds ≡ d ∷ ds') × (can_make accepting d ≡ true)
unblocked accepting b [] h = absurd (ground arith)
unblocked accepting b (connect_to_federate j ∷ ds) h = absurd (ground arith)
unblocked accepting b (mutex_init ∷ ds) h = (mutex_init, ds, refl, refl)
unblocked accepting b (init_shutdown_mutex ∷ ds) h = (init_shutdown_mutex, ds, refl, refl)
unblocked accepting b (cond_init ∷ ds) h = (cond_init, ds, refl, refl)
unblocked accepting b (connect_to_rti n m ∷ ds) h = (connect_to_rti n m, ds, refl, refl)
unblocked accepting b (create_server n ∷ ds) h = (create_server n, ds, refl, refl)
unblocked accepting b (thread_create ∷ ds) h = (thread_create, ds, refl, refl)

abbrev pub Progress : Starting → Type 0
Progress s = All (λ cs. cs ≡ []) s.remaining ⊎ ((t : Starting) × Step s t)

Progress-IsFree : (s : Starting) → IsFree s → Progress s
Progress-IsFree s h = elim (pending s.remaining) [
  | inl done ↦ inl done
  | inr (i, c, cs, e) ↦ elim (Bool-cases (can_make s.accepting c)) [
    | inl can ↦ inr (made i c cs s, make i c cs e can)
    | inr cannot ↦
        let (j, connects, idle) = blocked s.accepting c cs cannot in
        elim (h.served i (c ∷ cs) j e connects) [
          | inl accepting ↦ absurd (ground (arith, accepting, idle))
          | inr (ds, f, first) ↦
              let (d, ds', g, can) = unblocked s.accepting (s.serving j) ds first in
              inr (made j d ds' s, make j d ds' (f ∙ ap some g) can)
        ]
  ]
]

calls_left-set :
    (css : List (List Call)) (i : ℕ) (c : Call) (cs : List Call)
    → get_elem? css i ≡ some (c ∷ cs)
    → suc (calls_left (set css i cs)) ≡ calls_left css
calls_left-set [] i c cs e = absurd (ground arith)
calls_left-set (ds ∷ css) zero c cs e =
    let first : ds ≡ c ∷ cs = some_inj ds (c ∷ cs) e in omega (arith, ap length first)
calls_left-set (ds ∷ css) (suc i) c cs e = omega (arith, calls_left-set css i c cs e)

calls_left-Steps :
    (s t : Starting) (r : Steps s t) → steps r + calls_left t.remaining ≡ calls_left s.remaining
calls_left-Steps s _ stop = omega arith
calls_left-Steps s _ (next {t} r (make i c cs e can)) =
    omega (arith, calls_left-Steps s t r, calls_left-set t.remaining i c cs e)

-- However the 46 federates interleave the peer-to-peer calls of their starts, in every state that
-- they reach each has made all its calls, or one of them can make its next one: none waits for ever
-- for the thread of another to accept its connection. And every step makes one of the calls, so that a run has as many steps
-- as calls have been made, and no run goes on without end.
pub starts-Progress :
    (t : Starting) (r : Steps initial t)
    → Progress t × (steps r + calls_left t.remaining ≡ calls_left initial.remaining)
starts-Progress t r =
    (Progress-IsFree t (IsFree-Steps initial t r initial-IsFree), calls_left-Steps initial t r)
