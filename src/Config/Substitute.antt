-- ===== src/Config/Substitute.antt =====
-- The replacement loop of `resolve_yaml_vars` (lf-src/lf-include/utils.hpp), with the operations
-- of std::string that it uses.
pub mod Reference
pub mod Loop
use lf_autoware.Base.{
  ℕ, zero, suc, ◌+◌, ◌≡◌, refl, Bool, true, false, ◌&&◌, Option, none, some, List, [], ◌∷◌, ◌++◌,
  Text, codes, length, take, drop, leb, ◌==◌, if◌then◌else◌,
}

-- `text` begins with `pattern`.
unfoldable pub starts_with : Text → Text → Bool
starts_with [] text = true
starts_with (p ∷ ps) [] = false
starts_with (p ∷ ps) (c ∷ cs) = (p == c) && starts_with ps cs

-- The first match of `pattern` in a rest that begins at position `i`.
unfoldable pub find_in : Text → Text → ℕ → Option ℕ
find_in pattern [] i = if starts_with pattern [] then some i else none
find_in pattern (c ∷ cs) i =
    let rest = find_in pattern cs (suc i) in if starts_with pattern (c ∷ cs) then some i else rest

-- content.find(pattern, pos); `none` is std::string::npos.
unfoldable pub find : Text → Text → ℕ → Option ℕ
find content pattern pos =
    if leb pos (length content) then find_in pattern (drop pos content) pos else none

-- content.replace(pos, n, value)
unfoldable pub replace : Text → ℕ → ℕ → Text → Text
replace content pos n value = take pos content ++ (value ++ drop (pos + n) content)

-- while ((pos = content.find(pattern, pos)) != npos) { replace; pos += value.size(); }
-- `none` means that the fuel ran out.
unfoldable pub replace_from : ℕ → Text → Text → Text → ℕ → Option Text
replace_from zero pattern value content pos = none
replace_from (suc fuel) pattern value content pos = elim (find content pattern pos) [
  | none ↦ some content
  | some at ↦
      replace_from fuel pattern value (replace content at (length pattern) value)
        (at + length value)
]

-- The loop over the replacements, each with rounds for every byte of the text.
unfoldable pub replace_all : List (Text × Text) → Text → Option Text
replace_all [] content = some content
replace_all ((pattern, value) ∷ rs) content =
    elim (replace_from (suc (length content)) pattern value content 0) [
      | none ↦ none
      | some content' ↦ replace_all rs content'
    ]

two_replacements :
    replace_all ((codes "$(a)", codes "x$(a)") ∷ (codes "y", codes "") ∷ []) (codes "1$(a)$(a)y")
    ≡ some (codes "1x$(a)x$(a)")
unfolding replace_all replace_from find find_in starts_with replace
two_replacements = refl
