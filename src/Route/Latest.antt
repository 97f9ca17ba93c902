-- ===== src/Route/Latest.antt =====
-- Whether the newest route is sent.
use mathlib.Core.Path.{subst}
use lf_autoware.Base.{
  ◌≡◌, refl, sym, ap, ◌∙◌, Bool, true, false, Option, none, some, List, [], ◌∷◌, ◌++◌, append_assoc,
  if◌then◌else◌, if_elim,
}
use lf_autoware.Route.{
  Pc, idle, checked, copied, emitted, Planner, next_from, advance, write, mark, reaction,
  write_route, mark_route, Steps, stop, next, start,
}

either : (b : Bool) (P Q : Type 0) → P × Q → if b then P else Q
either true P Q h = h.0
either false P Q h = h.1

both : (b : Bool) (P : Type 0) → P → if b then P else P
both true P h = h
both false P h = h

collapse : (b : Bool) (P : Type 0) → if b then P else P → P
collapse true P h = h
collapse false P h = h

module _ {A : Type 0} where
  unfoldable pub last : List A → Option A
  last [] = none
  last (x ∷ []) = some x
  last (x ∷ y ∷ xs) = last (y ∷ xs)

  last-snoc : (xs : List A) (a : A) → last (xs ++ a ∷ []) ≡ some a
  unfolding last
  last-snoc [] a = refl
  last-snoc (x ∷ []) a = refl
  last-snoc (x ∷ y ∷ xs) a = last-snoc (y ∷ xs) a

  -- The reaction does not stand between the copy of the route and the end of its work on it.
  abbrev pub IsOpen : Pc A → Type 0
  IsOpen idle = Unit
  IsOpen checked = Unit
  IsOpen (copied a) = ⊥
  IsOpen emitted = ⊥

  -- Steps in which no callback sets the route between the copy and the clearing of the flag.
  pub data ApartSteps (s : Planner A) : Planner A → Type 0 where
    stop_apart : ApartSteps s s
    reaction_apart : {t : Planner A} → ApartSteps s t → ApartSteps s (advance t)
    write_apart :
        {t : Planner A} (a : A)
        → ApartSteps s t
        → IsOpen t.pc
        → t.in_callback ≡ false
        → ApartSteps s (write a t)
    mark_apart : {t : Planner A} → ApartSteps s t → t.in_callback ≡ true → ApartSteps s (mark t)

  -- While the flag is set or a callback will set it, the newest route is in `lf_output_route`.
  abbrev IsCurrentAt : Pc A → Planner A → Type 0
  IsCurrentAt idle s =
      if s.lf_route_is_set
      then last s.raised ≡ some s.lf_output_route
      else if s.in_callback
      then last s.raised ≡ some s.lf_output_route
      else last s.outputs ≡ last s.raised
  IsCurrentAt checked s = last s.raised ≡ some s.lf_output_route
  IsCurrentAt (copied a) s = (last s.raised ≡ some s.lf_output_route) × (last s.raised ≡ some a)
  IsCurrentAt emitted s =
      (last s.raised ≡ some s.lf_output_route) × (last s.outputs ≡ last s.raised)

  IsCurrent : Planner A → Type 0
  IsCurrent s = IsCurrentAt s.pc s

  IsCurrent-next :
      (pc : Pc A) (s : Planner A) → s.pc ≡ pc → IsCurrentAt pc s → IsCurrent (next_from pc s)
  unfolding IsCurrent
  IsCurrent-next idle s e h =
      if_elim IsCurrent s.lf_route_is_set (record s { pc = checked }) s (λ set. (rw set at h))
        (λ unset. subst (λ pc. IsCurrentAt pc s) (sym e) h)
  IsCurrent-next checked s e h = (h, h)
  IsCurrent-next (copied a) s e h = (h.0, last-snoc s.outputs a ∙ sym h.1)
  IsCurrent-next emitted s e h = either s.in_callback _ _ h

  IsCurrent-write : (a : A) (pc : Pc A) (s : Planner A) → IsOpen pc → IsCurrentAt pc (write a s)
  unfolding write
  IsCurrent-write a idle s o = both s.lf_route_is_set _ (last-snoc s.raised a)
  IsCurrent-write a checked s o = last-snoc s.raised a
  IsCurrent-write a (copied b) s o = absurd o
  IsCurrent-write a emitted s o = absurd o

  IsCurrent-mark :
      (pc : Pc A) (s : Planner A)
      → s.in_callback ≡ true
      → IsCurrentAt pc s
      → IsCurrentAt pc (mark s)
  unfolding mark
  IsCurrent-mark idle s q h = collapse s.lf_route_is_set _ (rw q at h)
  IsCurrent-mark checked s q h = h
  IsCurrent-mark (copied b) s q h = h
  IsCurrent-mark emitted s q h = h

  IsCurrent-ApartSteps : (s t : Planner A) → ApartSteps s t → IsCurrent s → IsCurrent t
  unfolding IsCurrent advance write mark
  IsCurrent-ApartSteps s _ stop_apart h = h
  IsCurrent-ApartSteps s _ (reaction_apart {t} r) h =
      IsCurrent-next t.pc t refl (IsCurrent-ApartSteps s t r h)
  IsCurrent-ApartSteps s _ (write_apart {t} a r o q) h = IsCurrent-write a t.pc t o
  IsCurrent-ApartSteps s _ (mark_apart {t} r q) h =
      IsCurrent-mark t.pc t q (IsCurrent-ApartSteps s t r h)

  -- If from a start at which no callback has run none sets the route between the copy of a route and
  -- the clearing of the flag, then whenever neither the reaction nor a callback is at work and the
  -- flag is not set, the newest route that was raised is the newest that was sent. When the callbacks
  -- set the flag does not matter.
  pub outputs-last :
      (a : A) (t : Planner A)
      → ApartSteps (start a) t
      → t.pc ≡ idle
      → t.in_callback ≡ false
      → t.lf_route_is_set ≡ false
      → last t.outputs ≡ last t.raised
  unfolding IsCurrent
  outputs-last a t r e q f =
      let h = subst (λ pc. IsCurrentAt pc t) e (IsCurrent-ApartSteps (start a) t r refl) in
      (rw (f, q) at h)

  -- `b` is raised while `a` has been copied and not yet sent.
  abbrev overtaken : Planner A → A → A → Planner A
  overtaken s a b = advance (advance (mark (write b (advance (advance (mark (write a s)))))))

  abbrev at_rest : Planner A → Planner A
  at_rest s = record s { pc = idle; in_callback = false }

  overtaken-Steps : (s : Planner A) (a b : A) → Steps (at_rest s) (overtaken (at_rest s) a b)
  unfolding advance write mark
  overtaken-Steps s a b =
      next
        (next
          (next
            (next
              (next (next (next (next stop (write_route a refl)) (mark_route refl)) reaction)
                reaction)
              (write_route b refl))
            (mark_route refl))
          reaction)
        reaction

  at_rest-eq : (s : Planner A) → s.pc ≡ idle → s.in_callback ≡ false → at_rest s ≡ s
  at_rest-eq s e q =
      ap (λ pc. record s { pc = pc; in_callback = false }) (sym e)
      ∙ ap (λ c. record s { in_callback = c }) (sym q)

  -- From any state in which neither the reaction nor a callback is at work, two callbacks can fall so
  -- that the reaction is then done, the flag is not set, and of the two routes that they raise only
  -- the first has been sent: the second is lost.
  pub raised_is_lost :
      (s : Planner A) (a b : A)
      → s.pc ≡ idle
      → s.in_callback ≡ false
      → (t : Planner A) × Steps s t
        × (t.pc ≡ idle)
        × (t.in_callback ≡ false)
        × (t.lf_route_is_set ≡ false)
        × (t.raised ≡ s.raised ++ a ∷ b ∷ [])
        × (t.outputs ≡ s.outputs ++ a ∷ [])
  unfolding advance write mark
  raised_is_lost s a b e q = (
    overtaken (at_rest s) a b,
    subst (λ r. Steps r (overtaken (at_rest s) a b)) (at_rest-eq s e q) (overtaken-Steps s a b),
    refl,
    refl,
    refl,
    append_assoc s.raised (a ∷ []) (b ∷ []),
    refl,
  )

  -- The same for a route that is sent twice: the callback sets the flag only after the reaction has
  -- sent the route on an older flag.
  abbrev repeated : Planner A → A → A → Planner A
  repeated s a b = advance (
      advance (
        advance
          (advance (mark (advance (advance (advance (advance (write b (mark (write a s)))))))))))

  repeated-Steps : (s : Planner A) (a b : A) → Steps (at_rest s) (repeated (at_rest s) a b)
  unfolding advance write mark
  repeated-Steps s a b =
      let marked =
        next (next (next stop (write_route a refl)) (mark_route refl)) (write_route b refl) in
      let sent = next (next (next (next marked reaction) reaction) reaction) reaction in
      next (next (next (next (next sent (mark_route refl)) reaction) reaction) reaction) reaction

  -- From any state in which neither the reaction nor a callback is at work, two callbacks can fall so
  -- that the first of the routes that they raise is lost and the second is sent twice.
  pub raised_is_repeated :
      (s : Planner A) (a b : A)
      → s.pc ≡ idle
      → s.in_callback ≡ false
      → (t : Planner A) × Steps s t
        × (t.raised ≡ s.raised ++ a ∷ b ∷ [])
        × (t.outputs ≡ s.outputs ++ b ∷ b ∷ [])
  unfolding advance write mark
  raised_is_repeated s a b e q = (
    repeated (at_rest s) a b,
    subst (λ r. Steps r (repeated (at_rest s) a b)) (at_rest-eq s e q) (repeated-Steps s a b),
    append_assoc s.raised (a ∷ []) (b ∷ []),
    append_assoc s.outputs (b ∷ []) (b ∷ []),
  )
