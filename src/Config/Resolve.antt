-- ===== src/Config/Resolve.antt =====
-- `resolve_yaml_vars` (lf-src/lf-include/utils.hpp).
use lf_autoware.Base.{
  ◌+◌, ◌≡◌, refl, ◌⊎◌, inl, inr, none, some, List, Text, All, Option-cases, Bool-cases, false,
  text_eq, text_eq_refl, eq_of_text_eq, arith,
}
use lf_autoware.Config.Process.{
  Process, resolved_path, write_file, file-write_file_ne, file-write_file_self,
}
use lf_autoware.Config.Substitute.{replace_all}
use lf_autoware.Config.Substitute.Loop.{substitute_each, IsProper, replace_all-eq-substitute_each}

-- How a call ends: with a result, by an exit of the process, or not within the model's rounds.
pub data Ending (A : Type 0) : Type 0 where
  done : A → Ending A
  exited : Ending A
  out_of_rounds : Ending A

unfoldable pub resolve_yaml_vars : Text → List (Text × Text) → Process → Ending (Text × Process)
resolve_yaml_vars path replacements w = elim (w.file path) [
  | none ↦ exited
  | some content ↦ elim (replace_all replacements content) [
    | none ↦ out_of_rounds
    | some content' ↦ done (
      resolved_path w.pid w.resolved_counter,
      write_file (resolved_path w.pid w.resolved_counter) content'
          (record w { resolved_counter = w.resolved_counter + 1 }),
    )
  ]
]

-- The copy at the new path holds the substituted text, and nothing else has changed.
pub record IsResolved (content : Text) (replacements : List (Text × Text)) (w : Process)
    (r : Text × Process) : Type 0 where
  pub path : r.0 ≡ resolved_path w.pid w.resolved_counter
  pub counter : r.1.resolved_counter ≡ w.resolved_counter + 1
  pub holds :
      (w.can_write r.0 ≡ false) ⊎ (r.1.file r.0 ≡ some (substitute_each replacements content))
  pub others : (q : Text) → (q ≡ r.0) ⊎ (r.1.file q ≡ w.file q)

-- With patterns that are not empty the function never runs out of rounds. It exits exactly if the
-- file cannot be opened. Else it returns a path made from the process and a counter that it
-- advances, the file at which holds the text with each replacement made in turn, if it can be
-- written, and all other files stay as they were.
pub resolve_yaml_vars-IsResolved :
    (path : Text) (replacements : List (Text × Text)) (w : Process)
    → All IsProper replacements
    → ((w.file path ≡ none) × (resolve_yaml_vars path replacements w ≡ exited))
      ⊎ ((content : Text) × (r : Text × Process) × (w.file path ≡ some content)
          × (resolve_yaml_vars path replacements w ≡ done r)
          × IsResolved content replacements w r)
unfolding resolve_yaml_vars
resolve_yaml_vars-IsResolved path replacements w h = elim (Option-cases (w.file path)) [
  | inl e ↦ inl (e, rw (e, resolve_yaml_vars) refl)
  | inr (content, e) ↦ inr (
    content,
    (fresh, write_file fresh (substitute_each replacements content) advanced),
    e,
    rw (e, resolve_yaml_vars) (rw (replace_all-eq-substitute_each replacements content h) refl),
    record {
      path = refl;
      counter = unfold write_file in ground arith;
      holds = elim (Bool-cases (w.can_write fresh)) [
        | inl can ↦
            inr (file-write_file_self fresh (substitute_each replacements content) advanced can)
        | inr refused ↦ inl refused
      ];
      others = λ q. elim (Bool-cases (text_eq q fresh)) [
        | inl same ↦ inl (eq_of_text_eq q fresh same)
        | inr differs ↦ inr (
            file-write_file_ne fresh (substitute_each replacements content) q advanced
              (λ e. ground (arith, text_eq_refl fresh)))
      ];
    },
  )
]
  where
    fresh : Text
    fresh = resolved_path w.pid w.resolved_counter

    advanced : Process
    advanced = record w { resolved_counter = w.resolved_counter + 1 }

-- The process after the copy has been written.
abbrev pub written_copy : List (Text × Text) → Text → Process → Process
written_copy replacements content w =
    write_file (resolved_path w.pid w.resolved_counter) (substitute_each replacements content)
      (record w { resolved_counter = w.resolved_counter + 1 })

pub resolve_yaml_vars-written_copy :
    (path : Text) (replacements : List (Text × Text)) (content : Text) (w : Process)
    → All IsProper replacements
    → w.file path ≡ some content
    → resolve_yaml_vars path replacements w
      ≡ done (resolved_path w.pid w.resolved_counter, written_copy replacements content w)
unfolding resolve_yaml_vars
resolve_yaml_vars-written_copy path replacements content w h f =
    rw (f, resolve_yaml_vars) (rw (replace_all-eq-substitute_each replacements content h) refl)
