-- ===== src/Config/Substitute/Loop.antt =====
-- The loop ends, and computes the reference.
use lf_autoware.Base.{
  ℕ, zero, suc, ◌+◌, ◌<◌, ◌≡◌, ◌≢◌, refl, ap, sym, ◌∙◌, true, none, some, List, [], ◌∷◌, ◌++◌,
  arith, Text, length, length-append, take, drop, leb, append_assoc, All, Option-cases, inl, inr,
}
use lf_autoware.Config.Substitute.{starts_with, find_in, find, replace, replace_from, replace_all}
use lf_autoware.Config.Substitute.Reference.{substituted, find_in-none, Match, find_in-some}

take-append : (x y : Text) → take (length x) (x ++ y) ≡ x
take-append [] y = refl
take-append (c ∷ x) y = ap (λ l. c ∷ l) (take-append x y)

drop-append : (x y : Text) → drop (length x) (x ++ y) ≡ y
drop-append [] y = refl
drop-append (c ∷ x) y = drop-append x y

replace_lem :
    (x m b value : Text) → replace (x ++ (m ++ b)) (length x) (length m) value ≡ (x ++ value) ++ b
unfolding replace
replace_lem x m b value =
    let e : drop (length x + length m) (x ++ (m ++ b)) ≡ b =
      rw (← length-append x m, ← append_assoc x m b) (drop-append (x ++ m) b) in
    rw (take-append, e, append_assoc) refl

find_lem :
    (pre rest pattern : Text)
    → find (pre ++ rest) pattern (length pre) ≡ find_in pattern rest (length pre)
unfolding find
find_lem pre rest pattern =
    let e : leb (length pre) (length (pre ++ rest)) ≡ true =
      ground (arith, length-append pre rest) in
    rw (e, drop-append) refl

module _ (p : ℕ) (ps value : Text) where
  step :
      (fuel : ℕ) (pre rest : Text)
      → ((pre' b : Text)
          → length b < fuel
          → replace_from fuel (p ∷ ps) value (pre' ++ b) (length pre')
            ≡ some (pre' ++ substituted (p ∷ ps) value 0 b))
      → length rest < suc fuel
      → (at : ℕ) → find_in (p ∷ ps) rest (length pre) ≡ some at
      → Match p ps value rest (length pre) at
      → replace_from (suc fuel) (p ∷ ps) value (pre ++ rest) (length pre)
        ≡ some (pre ++ substituted (p ∷ ps) value 0 rest)
  unfolding replace_from
  step fuel pre rest ih h at e (a, b, er, n, q) =
      let content : pre ++ rest ≡ (pre ++ a) ++ ((p ∷ ps) ++ b) =
        ap (λ l. pre ++ l) er ∙ sym (append_assoc pre a ((p ∷ ps) ++ b)) in
      let position : at ≡ length (pre ++ a) = omega (arith, length-append pre a) in
      let next : at + length value ≡ length ((pre ++ a) ++ value) =
        omega (arith, length-append (pre ++ a) value) in
      let changed : replace (pre ++ rest) at (length (p ∷ ps)) value ≡ ((pre ++ a) ++ value) ++ b =
        rw (content, position) (replace_lem (pre ++ a) (p ∷ ps) b value) in
      let short : length b < fuel =
        omega (arith, ap length er, length-append a ((p ∷ ps) ++ b), length-append (p ∷ ps) b) in
      rw (find_lem pre rest (p ∷ ps), e, replace_from)
        (rw (changed, next, ih ((pre ++ a) ++ value) b short, q) (simp append_assoc))

  -- With more rounds than bytes left the loop ends, from any position, and what lies behind the
  -- position is the reference's.
  pub replace_from_lem :
      (fuel : ℕ) (pre rest : Text)
      → length rest < fuel
      → replace_from fuel (p ∷ ps) value (pre ++ rest) (length pre)
        ≡ some (pre ++ substituted (p ∷ ps) value 0 rest)
  unfolding replace_from
  replace_from_lem zero pre rest h = elim h [ ]
  replace_from_lem (suc fuel) pre rest h =
      elim (Option-cases (find_in (p ∷ ps) rest (length pre))) [
        | inl e ↦
            rw (find_lem pre rest (p ∷ ps), e, replace_from)
              (rw (find_in-none p ps value rest (length pre) e) refl)
        | inr (at, e) ↦
            step fuel pre rest (replace_from_lem fuel) h at e
              (find_in-some p ps value rest (length pre) at e)
      ]

-- The replacements one after the other, each by the reference.
unfoldable pub substitute_each : List (Text × Text) → Text → Text
substitute_each [] content = content
substitute_each ((pattern, value) ∷ rs) content =
    substitute_each rs (substituted pattern value 0 content)

abbrev pub IsProper : Text × Text → Type 0
IsProper (pattern, value) = pattern ≢ []

-- For replacements whose patterns are not empty, the loops of `resolve_yaml_vars` end within the
-- rounds that the model gives, on every text and with values that contain the pattern too, and give
-- what one pass of the reference for each replacement gives.
pub replace_all-eq-substitute_each :
    (rs : List (Text × Text)) (content : Text)
    → All IsProper rs
    → replace_all rs content ≡ some (substitute_each rs content)
unfolding replace_all substitute_each
replace_all-eq-substitute_each [] content h = refl
replace_all-eq-substitute_each (([], value) ∷ rs) content h = absurd (h.0 refl)
replace_all-eq-substitute_each (((p ∷ ps), value) ∷ rs) content h =
    rw (replace_from_lem p ps value (suc (length content)) [] content (omega arith), replace_all)
      (replace_all-eq-substitute_each rs (substituted (p ∷ ps) value 0 content) h.1)

find_in-nil : (rest : Text) (i : ℕ) → find_in [] rest i ≡ some i
unfolding find_in starts_with
find_in-nil [] i = refl
find_in-nil (c ∷ cs) i = refl

-- An empty pattern is found again at every position, also at the end: the loop never ends.
pub replace_from-nil_diverges :
    (fuel : ℕ) (pre rest value : Text)
    → replace_from fuel [] value (pre ++ rest) (length pre) ≡ none
unfolding replace_from
replace_from-nil_diverges zero pre rest value = refl
replace_from-nil_diverges (suc fuel) pre rest value =
    rw (find_lem pre rest [], find_in-nil rest (length pre), replace_from)
      (rw (replace_lem pre [] rest value, sym (length-append pre value))
        (replace_from-nil_diverges fuel (pre ++ value) rest value))
