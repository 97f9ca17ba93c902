-- ===== src/Base/Texts.antt =====
-- Text as the list of its bytes, with the test on texts and the decimal digits of a number.
use Prim.Native.Nat.{ℕ, zero, suc, ◌+◌, ◌-◌, ◌*◌, ◌/◌, ◌%◌, ◌<◌}
use Prim.Native.Char.{code}
use Prim.Native.String.{String}
use mathlib.Core.Path.{◌≡◌, refl, ap, sym, ◌∙◌}
use mathlib.Core.Logic.{inl, inr}
use mathlib.Core.Bool.{Bool, true, false, ◌&&◌}
use mathlib.Core.List.{List, [], ◌∷◌, ◌++◌}
use native.Mathlib.Omega.{arith}
use lf_autoware.Base.Tests.{ltb, ◌==◌, if◌then◌else◌, Bool-cases}

abbrev pub Text : Type 0
Text = List ℕ

-- The code points of a literal: its bytes, if it is ASCII. `String` has its own `[]` and `∷`.
abbrev pub codes : String → Text
codes String.[] = []
codes (String.◌∷◌ c s) = code c ∷ codes s

unfoldable pub text_eq : Text → Text → Bool
text_eq [] [] = true
text_eq [] (b ∷ bs) = false
text_eq (a ∷ as') [] = false
text_eq (a ∷ as') (b ∷ bs) = (a == b) && text_eq as' bs

pub text_eq_refl : (s : Text) → text_eq s s ≡ true
unfolding text_eq
text_eq_refl [] = refl
text_eq_refl (a ∷ as') = ground (arith, text_eq_refl as')

pub eq_of_text_eq : (s t : Text) → text_eq s t ≡ true → s ≡ t
unfolding text_eq
eq_of_text_eq [] [] h = refl
eq_of_text_eq [] (b ∷ bs) h = cc
eq_of_text_eq (a ∷ as') [] h = cc
eq_of_text_eq (a ∷ as') (b ∷ bs) h = ground (arith, eq_of_text_eq as' bs)

-- std::to_string of a number that is not negative; `n` rounds are enough for `n`.
digits : ℕ → ℕ → Text
digits zero n = []
digits (suc f) n =
    let high = digits f (n / 10) in if ltb n 10 then (48 + n) ∷ [] else high ++ (48 + n % 10) ∷ []

unfoldable pub to_string : ℕ → Text
unfolding digits
to_string n = digits (suc n) n

-- The number that digits stand for.
value : ℕ → Text → ℕ
value acc [] = acc
value acc (d ∷ ds) = value (acc * 10 + (d - 48)) ds

value-snoc : (acc : ℕ) (ds : Text) (d : ℕ) → value acc (ds ++ d ∷ []) ≡ value acc ds * 10 + (d - 48)
unfolding value
value-snoc acc [] d = refl
value-snoc acc (e ∷ ds) d = value-snoc (acc * 10 + (e - 48)) ds d

value-digits : (f n : ℕ) → n < f → value 0 (digits f n) ≡ n
unfolding value digits
value-digits zero n h = elim h [ ]
value-digits (suc f) n h = elim (Bool-cases (ltb n 10)) [
  | inl small ↦ rw small (omega arith)
  | inr large ↦
      rw
        (
          large,
          value-snoc 0 (digits f (n / 10)) (48 + n % 10),
          value-digits f (n / 10) (ground arith),
        )
        (omega arith)
]

-- Two numbers with the same digits are the same.
pub to_string-injective : (m n : ℕ) → to_string m ≡ to_string n → m ≡ n
unfolding to_string
to_string-injective m n e =
    sym (value-digits (suc m) m (omega arith))
    ∙ ap (value 0) e
    ∙ value-digits (suc n) n (omega arith)
