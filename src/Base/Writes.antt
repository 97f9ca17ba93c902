-- ===== src/Base/Writes.antt =====
-- A loop that fills an array from an index on writes exactly the values in order.
use Prim.Native.Nat.{ℕ, zero, suc}
use mathlib.Core.Path.{◌≡◌, refl, ap}
use mathlib.Core.List.{List, [], ◌∷◌, ◌++◌, append_assoc}
use native.Mathlib.Omega.{arith}
use lf_autoware.Base.Lists.{length, set, replicate, length-append}

module _ {ℓ} {A : Type ℓ} where
  pub write_from : ℕ → List A → List A → List A
  write_from i [] s = s
  write_from i (x ∷ xs) s = write_from (suc i) xs (set s i x)

  set-append :
      (pre : List A) (r x : A) (rest : List A)
      → set (pre ++ r ∷ rest) (length pre) x ≡ pre ++ x ∷ rest
  set-append [] r x rest = refl
  set-append (y ∷ pre) r x rest = ap (λ l. y ∷ l) (set-append pre r x rest)

  length-snoc : (pre : List A) (x : A) → length (pre ++ x ∷ []) ≡ suc (length pre)
  length-snoc pre x = omega (arith, length-append pre (x ∷ []))

  pub write_from-append :
      (pre xs rest : List A)
      → length rest ≡ length xs
      → write_from (length pre) xs (pre ++ rest) ≡ pre ++ xs
  unfolding write_from
  write_from-append pre [] [] h = refl
  write_from-append pre [] (r ∷ rest) h = absurd (omega arith)
  write_from-append pre (x ∷ xs) [] h = absurd (omega arith)
  write_from-append pre (x ∷ xs) (r ∷ rest) h = rw (set-append pre r x rest) (
      simp (length-snoc, append_assoc) at (write_from-append (pre ++ x ∷ []) xs rest (omega arith)))

  -- A whole array of the right size is replaced.
  pub write_all : (xs s : List A) → length s ≡ length xs → write_from 0 xs s ≡ xs
  write_all xs s h = write_from-append [] xs s h

  pub write_from-nil : (i : ℕ) (s : List A) → write_from i [] s ≡ s
  unfolding write_from
  write_from-nil i s = refl

  pub write_from-cons :
      (i : ℕ) (x : A) (xs s : List A) → write_from i (x ∷ xs) s ≡ write_from (suc i) xs (set s i x)
  unfolding write_from
  write_from-cons i x xs s = refl

pub length-replicate {ℓ} : {A : Type ℓ} (n : ℕ) (a : A) → length (replicate n a) ≡ n
length-replicate zero a = refl
length-replicate (suc n) a = ap suc (length-replicate n a)
