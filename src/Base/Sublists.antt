-- ===== src/Base/Sublists.antt =====
-- A list inside another, in the same order.
use mathlib.Core.List.{List, [], ◌∷◌, ◌++◌}

module _ {A : Type 0} where
  pub data IsSublist : List A → List A → Type 0 where
    nil : IsSublist [] []
    skip : {xs ys : List A} (y : A) → IsSublist xs ys → IsSublist xs (y ∷ ys)
    keep : {xs ys : List A} (x : A) → IsSublist xs ys → IsSublist (x ∷ xs) (x ∷ ys)

  -- A list is inside one with a further last element.
  pub IsSublist-snoc : (xs : List A) (a : A) → IsSublist xs (xs ++ a ∷ [])
  IsSublist-snoc [] a = skip a nil
  IsSublist-snoc (x ∷ xs) a = keep x (IsSublist-snoc xs a)

  pub IsSublist-trans : (xs ys zs : List A) → IsSublist xs ys → IsSublist ys zs → IsSublist xs zs
  IsSublist-trans xs _ _ h nil = h
  IsSublist-trans xs ys _ h (skip {ys = zs} z g) = skip z (IsSublist-trans xs ys zs h g)
  IsSublist-trans xs _ _ (skip {ys = ys} y h) (keep {ys = zs} _ g) =
      skip y (IsSublist-trans xs ys zs h g)
  IsSublist-trans _ _ _ (keep {xs = xs} {ys = ys} x h) (keep {ys = zs} _ g) =
      keep x (IsSublist-trans xs ys zs h g)

  pub IsSublist-snoc_both :
      (xs ys : List A) (a : A) → IsSublist xs ys → IsSublist (xs ++ a ∷ []) (ys ++ a ∷ [])
  IsSublist-snoc_both _ _ a nil = keep a nil
  IsSublist-snoc_both xs _ a (skip {ys = ys} y h) = skip y (IsSublist-snoc_both xs ys a h)
  IsSublist-snoc_both _ _ a (keep {xs = xs} {ys = ys} x h) = keep x (IsSublist-snoc_both xs ys a h)
