-- ===== src/Scheduling/Exclusive.antt =====
-- The timers that a reactor takes over from its node.
use mathlib.Core.Path.{subst}
use text.Mathlib.Text.{◌==◌}
use lf_autoware.Base.{
  ℕ, zero, suc, ◌*◌, ◌≡◌, ◌⊎◌, inl, inr, refl, sym, ap, ◌∙◌, String, Bool, true, false, ◌&&◌, ◌||◌,
  some, List, [], ◌∷◌, ◌++◌, map, get_elem?, all, all_sound, All, and_true, Bool-cases, arith,
}
use lf_autoware.Scheduling.{
  Action, construct, cancel, share, start_thread, Schedule, member, cancels, Running, perform,
  fresh, NodeTimer, Step, act, tag, fire, Steps, stop, next,
}
use lf_autoware.Scheduling.Schedules.{schedules}

-- What a reactor takes over from the timers of its node: the methods that it calls itself, with the
-- period in milliseconds, and the timers that must no longer do so.
pub record Taken : Type 0 where
  pub period : ℕ
  pub methods : List String
  pub timers : List String

abbrev taken : ℕ → List String → List String → Taken
taken period methods timers = record { period = period; methods = methods; timers = timers }

-- One for each of the 21 reactors, in the order of their names. The node of mission_planner keeps
-- its timers.
abbrev pub taken_over : List Taken
taken_over =
    taken 1000 ("on_timer" ∷ []) ("timer_" ∷ [])
    ∷ taken 100 ("run" ∷ []) ("timer_" ∷ [])
    ∷ taken 1000 ("on_timer" ∷ []) ("timer_" ∷ [])
    ∷ taken 200 ("onTimer" ∷ []) ("timer_" ∷ [])
    ∷ taken 1000 ("onTimer" ∷ []) ("timer_" ∷ [])
    ∷ taken 100 ("on_timer" ∷ []) ("timer_" ∷ [])
    ∷ taken 100 ("onTimer" ∷ []) ("timer_" ∷ [])
    ∷ taken 100 ([]) ([])
    ∷ taken 100 ("onTimer" ∷ []) ("timer_" ∷ [])
    ∷ taken 100 ("onTimer" ∷ []) ("timer_" ∷ [])
    ∷ taken 100 ("onTimer" ∷ []) ("timer_" ∷ [])
    ∷ taken 100 ("on_timer" ∷ []) ("timer_" ∷ [])
    ∷ taken 100 ("run" ∷ []) ("timer_" ∷ [])
    ∷ taken 1000 ("on_timer" ∷ []) ("timer_" ∷ [])
    ∷ taken 100 ("callback_timer" ∷ []) ("timer_" ∷ [])
    ∷ taken 100 ("onTimer" ∷ []) ("timer_" ∷ [])
    ∷ taken 1000 ("on_timer" ∷ []) ("timer_" ∷ [])
    ∷ taken 100 ("onTimer" ∷ []) ("timer_" ∷ [])
    ∷ taken 100 ("onTimer" ∷ []) ("timer_" ∷ [])
    ∷ taken 30 ("callbackTimerControl" ∷ []) ("timer_control_" ∷ [])
    ∷ taken 50 ("onTimer" ∷ "publishStatus" ∷ []) ("timer_" ∷ "timer_pub_status_" ∷ [])
    ∷ []

-- The calls of the first `n` tags.
abbrev pub calls_of : Taken → ℕ → List (ℕ × String)
calls_of o zero = []
calls_of o (suc n) = calls_of o n ++ map (λ m. (n * o.period, m)) o.methods

abbrev scheduled : Schedule → ℕ → List (ℕ × String)
scheduled s n = calls_of (taken s.period s.methods (cancels s.startup)) n

AreTakenOver : List Schedule → List Taken → Type 0
AreTakenOver [] [] = Unit
AreTakenOver (s ∷ ss) (o ∷ os) =
    (taken s.period s.methods (cancels s.startup) ≡ o) × AreTakenOver ss os
AreTakenOver _ _ = ⊥

taken_over-at :
    (ss : List Schedule) (os : List Taken) (k : ℕ) (s : Schedule) (o : Taken)
    → AreTakenOver ss os
    → get_elem? ss k ≡ some s
    → get_elem? os k ≡ some o
    → taken s.period s.methods (cancels s.startup) ≡ o
unfolding AreTakenOver
taken_over-at [] os k s o h e f = absurd (ground arith)
taken_over-at (s1 ∷ ss) [] k s o h e f = absurd h
taken_over-at (s1 ∷ ss) (o1 ∷ os) zero s o h e f =
    let at : s1 ≡ s = cc in
    let to : o1 ≡ o = cc in
    subst (λ s. taken s.period s.methods (cancels s.startup) ≡ o) at (h.0 ∙ to)
taken_over-at (s1 ∷ ss) (o1 ∷ os) (suc k) s o h e f = taken_over-at ss os k s o h.1 e f

schedules_taken : AreTakenOver schedules taken_over
unfolding AreTakenOver
schedules_taken = (
  refl,
  (
    refl,
    (
      refl,
      (
        refl,
        (
          refl,
          (
            refl,
            (
              refl,
              (
                refl,
                (
                  refl,
                  (
                    refl,
                    (
                      refl,
                      (
                        refl,
                        (refl, (refl, (refl, (refl, (refl, (refl, (refl, (refl, (refl, tt))))))))),
                      ),
                    ),
                  ),
                ),
              ),
            ),
          ),
        ),
      ),
    ),
  ),
)

-- A list of actions with nothing to cancel.
abbrev cancels_nothing : List Action → Bool
cancels_nothing [] = true
cancels_nothing (cancel t ∷ as') = false
cancels_nothing (construct ∷ as') = cancels_nothing as'
cancels_nothing (share ∷ as') = cancels_nothing as'
cancels_nothing (start_thread f ∷ as') = cancels_nothing as'

-- Nothing is cancelled after a thread has been started.
abbrev ordered? : List Action → Bool
ordered? [] = true
ordered? (start_thread f ∷ as') = cancels_nothing as' && ordered? as'
ordered? (cancel t ∷ as') = ordered? as'
ordered? (construct ∷ as') = ordered? as'
ordered? (share ∷ as') = ordered? as'

record IsExclusive (s : Schedule) (r : Running) : Type 0 where
  ordered : ordered? r.to_do ≡ true
  spun : (r.spinning ≡ false) ⊎ (cancels_nothing r.to_do ≡ true)
  covered :
      (x : String)
      → (member x r.cancelled || member x (cancels r.to_do)) ≡ member x (cancels s.startup)
  reaction : r.reaction_calls ≡ scheduled s r.tags
  timers : All (λ t. member t.0 (cancels s.startup) ≡ false) r.timer_calls

or_swap : (a b c : Bool) → ((a || b) || c) ≡ (b || (a || c))
or_swap a b c = ground arith

IsExclusive-perform :
    (s : Schedule) (a : Action) (as' : List Action) (r : Running)
    → r.to_do ≡ a ∷ as'
    → IsExclusive s r
    → IsExclusive s (perform a as' r)
IsExclusive-perform s construct as' r e h = record {
  ordered = ap ordered? (sym e) ∙ h.ordered;
  spun = subst (λ l. (r.spinning ≡ false) ⊎ (cancels_nothing l ≡ true)) e h.spun;
  covered = λ x. ap (λ l. member x r.cancelled || member x (cancels l)) (sym e) ∙ h.covered x;
  reaction = h.reaction;
  timers = h.timers;
}
IsExclusive-perform s share as' r e h = record {
  ordered = ap ordered? (sym e) ∙ h.ordered;
  spun = subst (λ l. (r.spinning ≡ false) ⊎ (cancels_nothing l ≡ true)) e h.spun;
  covered = λ x. ap (λ l. member x r.cancelled || member x (cancels l)) (sym e) ∙ h.covered x;
  reaction = h.reaction;
  timers = h.timers;
}
IsExclusive-perform s (cancel t) as' r e h = record {
  ordered = ap ordered? (sym e) ∙ h.ordered;
  spun = elim h.spun [
    | inl idle ↦ inl idle
    | inr spun ↦ absurd (ground (arith, ap cancels_nothing (sym e) ∙ spun))
  ];
  covered = λ x.
      or_swap (x == t) (member x r.cancelled) (member x (cancels as'))
      ∙ ap (λ l. member x r.cancelled || member x (cancels l)) (sym e)
      ∙ h.covered x;
  reaction = h.reaction;
  timers = h.timers;
}
IsExclusive-perform s (start_thread f) as' r e h =
    let (nothing, rest) = and_true (cancels_nothing as') _ (ap ordered? (sym e) ∙ h.ordered) in
    record {
      ordered = rest;
      spun = inr nothing;
      covered = λ x. ap (λ l. member x r.cancelled || member x (cancels l)) (sym e) ∙ h.covered x;
      reaction = h.reaction;
      timers = h.timers;
    }

cancels-nothing :
    (as' : List Action) (x : String) → cancels_nothing as' ≡ true → member x (cancels as') ≡ false
cancels-nothing [] x h = refl
cancels-nothing (cancel t ∷ as') x h = absurd (ground arith)
cancels-nothing (construct ∷ as') x h = cancels-nothing as' x h
cancels-nothing (share ∷ as') x h = cancels-nothing as' x h
cancels-nothing (start_thread f ∷ as') x h = cancels-nothing as' x h

-- A timer that the startup reaction cancels is cancelled once the node is spun.
cancelled-spun :
    (s : Schedule) (r : Running) (x : String)
    → IsExclusive s r
    → r.spinning ≡ true
    → member x (cancels s.startup) ≡ true
    → member x r.cancelled ≡ true
cancelled-spun s r x h spins c = elim h.spun [
  | inl idle ↦ absurd (ground (arith, idle, spins))
  | inr nothing ↦ ground (arith, h.covered x, c, cancels-nothing r.to_do x nothing)
]

module _ (s : Schedule) (timers : List NodeTimer) where
  IsExclusive-Step : (r u : Running) → Step s timers r u → IsExclusive s r → IsExclusive s u
  IsExclusive-Step r _ (act a as' e) h = IsExclusive-perform s a as' r e h
  IsExclusive-Step r _ (tag e) h = record {
    ordered = h.ordered;
    spun = h.spun;
    covered = h.covered;
    reaction = ap (λ l. l ++ map (λ m. (r.tags * s.period, m)) s.methods) h.reaction;
    timers = h.timers;
  }
  IsExclusive-Step r _ (fire k t e spins live) h = record {
    ordered = h.ordered;
    spun = h.spun;
    covered = h.covered;
    reaction = h.reaction;
    timers = (
      elim (Bool-cases (member t.0 (cancels s.startup))) [
        | inl c ↦ absurd (ground (arith, cancelled-spun s r t.0 h spins c, live))
        | inr other ↦ other
      ],
      h.timers,
    );
  }

  IsExclusive-Steps : (r u : Running) → Steps s timers r u → IsExclusive s r → IsExclusive s u
  IsExclusive-Steps r _ stop h = h
  IsExclusive-Steps r _ (next {t} {u} q x) h = IsExclusive-Step t u x (IsExclusive-Steps r t q h)

ordered_schedules : all (λ (s : Schedule). ordered? s.startup) schedules ≡ true
ordered_schedules = refl

-- Take one of the 21 reactors with a timer, with what it takes over from the timers of its node, and
-- whatever timers the node has. Then in every run none of the timers that are taken over ever fires,
-- also not between the start of the thread and the first tag, and the reaction has called the methods
-- that are taken over, in their order, once at each tag so far, which are the multiples of the period.
pub schedules-exclusive :
    (k : ℕ) (s : Schedule) (o : Taken)
    → get_elem? schedules k ≡ some s
    → get_elem? taken_over k ≡ some o
    → (timers : List NodeTimer) (r : Running) → Steps s timers (fresh s) r
    → All (λ t. member t.0 o.timers ≡ false) r.timer_calls × (r.reaction_calls ≡ calls_of o r.tags)
schedules-exclusive k s o e f timers r q =
    subst
      (λ o.
        All (λ t. member t.0 o.timers ≡ false) r.timer_calls
        × (r.reaction_calls ≡ calls_of o r.tags))
      (taken_over-at schedules taken_over k s o schedules_taken e f) (kept.timers, kept.reaction)
  where
    kept : IsExclusive s r
    kept = IsExclusive-Steps s timers (fresh s) r q (record {
      ordered = all_sound (λ (s : Schedule). ordered? s.startup) schedules k s ordered_schedules e;
      spun = inl refl;
      covered = λ x. refl;
      reaction = refl;
      timers = tt;
    })
