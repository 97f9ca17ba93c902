-- ===== src/Route/Order.antt =====
-- What the reaction sends was raised, in that order, and each time at most twice.
use mathlib.Core.Path.{subst}
use lf_autoware.Base.{
  ◌≡◌, refl, sym, ap, Bool, true, false, List, [], ◌∷◌, ◌++◌, if◌then◌else◌, append_assoc,
  append-nil, if_elim,
}
use lf_autoware.Route.{
  Pc, idle, checked, copied, emitted, Planner, next_from, advance, write, mark, reaction,
  write_route, mark_route, Steps, stop, next, start,
}
use lf_autoware.Base.Sublists.{
  IsSublist, nil, skip, keep, IsSublist-snoc, IsSublist-trans, IsSublist-snoc_both,
}

module _ {A : Type 0} where
  -- Every element twice in a row.
  abbrev pub twice : List A → List A
  twice [] = []
  twice (x ∷ xs) = x ∷ x ∷ twice xs

  twice-snoc : (xs : List A) (a : A) → twice (xs ++ a ∷ []) ≡ (twice xs ++ a ∷ []) ++ a ∷ []
  twice-snoc [] a = refl
  twice-snoc (x ∷ xs) a = ap (λ l. x ∷ x ∷ l) (twice-snoc xs a)

  -- The first part of a list is inside what the list is inside.
  before : (xs ys : List A) → IsSublist xs (xs ++ ys)
  before [] [] = nil
  before [] (y ∷ ys) = skip y (before [] ys)
  before (x ∷ xs) ys = keep x (before xs ys)

  one : Bool → A → List A
  one b a = if b then a ∷ [] else []

  -- What is yet to be sent if no further callback runs: for a flag that is set, and for the one that
  -- the callback at work will set.
  owed : Bool → Pc A → Bool → A → List A
  unfolding one
  owed w idle f a = one f a ++ one w a
  owed w checked f a = a ∷ one w a
  owed w (copied b) f a = b ∷ one w a
  owed w emitted f a = one w a

  IsOwed : List A → List A → Bool → Pc A → Bool → A → Type 0
  IsOwed outputs raised w pc f a = IsSublist (outputs ++ owed w pc f a) (twice raised)

  IsOrdered : Planner A → Type 0
  unfolding IsOwed
  IsOrdered s = IsOwed s.outputs s.raised s.in_callback s.pc s.lf_route_is_set s.lf_output_route

  -- Of what is owed, less may be.
  fewer : (xs ys zs rs : List A) → IsSublist (xs ++ (ys ++ zs)) rs → IsSublist (xs ++ ys) rs
  fewer xs ys zs rs h =
      IsSublist-trans (xs ++ ys) (xs ++ (ys ++ zs)) rs
        (subst (IsSublist (xs ++ ys)) (append_assoc xs ys zs) (before (xs ++ ys) zs)) h

  more :
      (xs ys : List A) (a : A)
      → IsSublist xs (twice ys)
      → IsSublist (xs ++ a ∷ []) (twice (ys ++ a ∷ []))
  more xs ys a h = subst (IsSublist (xs ++ a ∷ [])) (sym (twice-snoc ys a)) (
      IsSublist-trans (xs ++ a ∷ []) (twice ys ++ a ∷ []) _ (IsSublist-snoc_both xs (twice ys) a h)
        (IsSublist-snoc (twice ys ++ a ∷ []) a))

  more_twice :
      (xs ys : List A) (a : A)
      → IsSublist xs (twice ys)
      → IsSublist (xs ++ a ∷ a ∷ []) (twice (ys ++ a ∷ []))
  more_twice xs ys a h = subst (IsSublist (xs ++ a ∷ a ∷ [])) (sym (twice-snoc ys a)) (
      subst (λ l. IsSublist l ((twice ys ++ a ∷ []) ++ a ∷ [])) (append_assoc xs (a ∷ []) (a ∷ []))
        (IsSublist-snoc_both (xs ++ a ∷ []) (twice ys ++ a ∷ []) a
          (IsSublist-snoc_both xs (twice ys) a h)))

  written :
      (outputs raised : List A) (pc : Pc A) (f : Bool) (a b : A)
      → IsOwed outputs raised false pc f b
      → IsOwed outputs (raised ++ a ∷ []) true pc f a
  unfolding IsOwed owed one
  written os rs idle false a b h = more os rs a (rw append-nil at h)
  written os rs idle true a b h =
      more_twice os rs a (rw append-nil at (fewer os [] (b ∷ []) (twice rs) h))
  written os rs checked f a b h =
      more_twice os rs a (rw append-nil at (fewer os [] (b ∷ []) (twice rs) h))
  written os rs (copied c) f a b h =
      subst (λ l. IsSublist l (twice (rs ++ a ∷ []))) (append_assoc os (c ∷ []) (a ∷ []))
        (more (os ++ c ∷ []) rs a h)
  written os rs emitted f a b h = more os rs a (rw append-nil at h)

  marked :
      (outputs raised : List A) (pc : Pc A) (f : Bool) (a : A)
      → IsOwed outputs raised true pc f a
      → IsOwed outputs raised false pc true a
  unfolding IsOwed owed one
  marked os rs idle false a h = h
  marked os rs idle true a h = fewer os (a ∷ []) (a ∷ []) (twice rs) h
  marked os rs checked f a h = fewer os (a ∷ []) (a ∷ []) (twice rs) h
  marked os rs (copied c) f a h = fewer os (c ∷ []) (a ∷ []) (twice rs) h
  marked os rs emitted f a h = fewer os [] (a ∷ []) (twice rs) h

  advanced :
      (pc : Pc A) (s : Planner A)
      → s.pc ≡ pc
      → IsOwed s.outputs s.raised s.in_callback pc s.lf_route_is_set s.lf_output_route
      → IsOrdered (next_from pc s)
  unfolding IsOrdered IsOwed owed one
  advanced idle s e h =
      if_elim IsOrdered s.lf_route_is_set (record s { pc = checked }) s (λ set. (rw set at h))
        (λ unset.
          subst
            (λ pc. IsOwed s.outputs s.raised s.in_callback pc s.lf_route_is_set s.lf_output_route)
            (sym e) h)
  advanced checked s e h = h
  advanced (copied b) s e h =
      subst (λ l. IsSublist l (twice s.raised))
        (sym (append_assoc s.outputs (b ∷ []) (one s.in_callback s.lf_output_route))) h
  advanced emitted s e h = h

  IsOrdered-Steps : (s t : Planner A) → Steps s t → IsOrdered s → IsOrdered t
  unfolding IsOrdered advance write mark
  IsOrdered-Steps s _ stop h = h
  IsOrdered-Steps s _ (next {t} r reaction) h = advanced t.pc t refl (IsOrdered-Steps s t r h)
  IsOrdered-Steps s _ (next {t} r (write_route a q)) h =
      written t.outputs t.raised t.pc t.lf_route_is_set a t.lf_output_route (
        subst (λ w. IsOwed t.outputs t.raised w t.pc t.lf_route_is_set t.lf_output_route) q
          (IsOrdered-Steps s t r h))
  IsOrdered-Steps s _ (next {t} r (mark_route q)) h =
      marked t.outputs t.raised t.pc t.lf_route_is_set t.lf_output_route (
        subst (λ w. IsOwed t.outputs t.raised w t.pc t.lf_route_is_set t.lf_output_route) q
          (IsOrdered-Steps s t r h))

  -- From a start at which no callback has run, however the two statements of the callbacks fall
  -- between the statements of the reaction, the routes that it sends are ones that callbacks have
  -- put into `lf_output_route`, in the same order, and each of these is sent at most twice.
  pub outputs-IsSublist-raised :
      (a : A) (t : Planner A) → Steps (start a) t → IsSublist t.outputs (twice t.raised)
  unfolding IsOrdered IsOwed owed one
  outputs-IsSublist-raised a t r =
      let h = IsOrdered-Steps (start a) t r nil in
      IsSublist-trans t.outputs
        (t.outputs ++ owed t.in_callback t.pc t.lf_route_is_set t.lf_output_route) (twice t.raised)
        (before t.outputs (owed t.in_callback t.pc t.lf_route_is_set t.lf_output_route)) h
