-- ===== src/Config/Substitute/Reference.antt =====
-- The loop against a reference that reads the text once, from left to right.
use lf_autoware.Base.{
  ℕ, zero, suc, ◌+◌, ◌-◌, ◌≡◌, ◌≢◌, refl, true, none, some, [], ◌∷◌, ◌++◌, arith, Text, length,
  if◌then◌else◌, Bool-cases, inl, inr,
}
use lf_autoware.Config.Substitute.{starts_with, find_in}

-- At a match the value is written and the rest of the match skipped, else the byte is copied.
unfoldable pub substituted : Text → Text → ℕ → Text → Text
substituted pattern value skip [] = []
substituted pattern value (suc skip) (c ∷ cs) = substituted pattern value skip cs
substituted pattern value zero (c ∷ cs) =
    let hit = substituted pattern value (length pattern - 1) cs in
    let miss = substituted pattern value 0 cs in
    if starts_with pattern (c ∷ cs) then value ++ hit else c ∷ miss

starts_with_elim : (ps text : Text) → starts_with ps text ≡ true → (b : Text) × (text ≡ ps ++ b)
unfolding starts_with
starts_with_elim [] text h = (text, refl)
starts_with_elim (p ∷ ps) [] h = cc
starts_with_elim (p ∷ ps) (c ∷ cs) h =
    let (b, e) = starts_with_elim ps cs (ground arith) in (b, ground arith)

drop_one : (n : ℕ) → suc n - 1 ≡ n
drop_one n = omega arith

module _ (p : ℕ) (ps value : Text) where
  substituted-skip :
      (m b : Text) → substituted (p ∷ ps) value (length m) (m ++ b) ≡ substituted (p ∷ ps) value 0 b
  unfolding substituted
  substituted-skip [] b = refl
  substituted-skip (x ∷ m) b = substituted-skip m b

  pub find_in-none :
      (rest : Text) (i : ℕ)
      → find_in (p ∷ ps) rest i ≡ none
      → substituted (p ∷ ps) value 0 rest ≡ rest
  unfolding find_in substituted
  find_in-none [] i h = refl
  find_in-none (c ∷ cs) i h = ground (arith, find_in-none cs (suc i))

  no_nil : (i at : ℕ) → find_in (p ∷ ps) [] i ≢ some at
  unfolding find_in starts_with
  no_nil i at h = cc

  -- A match splits the rest, and the reference agrees up to its end.
  abbrev pub Match : Text → ℕ → ℕ → Type 0
  Match rest i at =
      (a : Text) × (b : Text) × (rest ≡ a ++ ((p ∷ ps) ++ b))
      × (at ≡ i + length a)
      × (substituted (p ∷ ps) value 0 rest ≡ a ++ (value ++ substituted (p ∷ ps) value 0 b))

  pub find_in-some : (rest : Text) (i at : ℕ) → find_in (p ∷ ps) rest i ≡ some at → Match rest i at
  unfolding find_in substituted
  find_in-some [] i at h = absurd (no_nil i at h)
  find_in-some (c ∷ cs) i at h = elim (Bool-cases (starts_with (p ∷ ps) (c ∷ cs))) [
    | inl found ↦
        let (b, e) = starts_with_elim (p ∷ ps) (c ∷ cs) found in
        let tail : cs ≡ ps ++ b = ground arith in
        ([], b, e, ground arith, ground (arith, substituted-skip ps b, tail, drop_one (length ps)))
    | inr missed ↦
        let (a, b, e, n, q) = find_in-some cs (suc i) at (ground arith) in
        (c ∷ a, b, ground arith, ground arith, ground arith)
  ]
