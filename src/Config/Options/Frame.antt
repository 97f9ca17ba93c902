-- ===== src/Config/Options/Frame.antt =====
-- What the functions of Config/Options leave alone.
use lf_autoware.Base.{
  ℕ, ◌+◌, ◌≤◌, ◌<◌, ◌≡◌, ◌≢◌, refl, ◌∙◌, Option, none, some, List, [], ◌∷◌, Text, codes, text_eq,
  arith, Bool-cases, Option-cases, inl, inr, if◌then◌else◌,
}
use lf_autoware.Config.Yaml.{Parameter, Options, global_yaml}
use lf_autoware.Config.Process.{Process, params_path, write_file, file-write_file_ne}
use lf_autoware.Config.Options.{load, rewrite_options, rewrite_yaml_as_global}

-- Only files under the names of counters not used before may change.
pub record Frame (w w' : Process) : Type 0 where
  pub pid : w'.pid ≡ w.pid
  pub can_write : w'.can_write ≡ w.can_write
  pub env : w'.env ≡ w.env
  pub counter : w.params_counter ≤ w'.params_counter
  pub file :
      (q : Text)
      → ((n : ℕ) → w.params_counter ≤ n → n < w'.params_counter → q ≢ params_path w.pid n)
      → w'.file q ≡ w.file q

pub Frame-refl : (w : Process) → Frame w w
Frame-refl w = record {
  pid = refl;
  can_write = refl;
  env = refl;
  counter = omega arith;
  file = λ q h. refl;
}

pub Frame-trans : (u v w : Process) → Frame u v → Frame v w → Frame u w
Frame-trans u v w f g = record {
  pid = g.pid ∙ f.pid;
  can_write = g.can_write ∙ f.can_write;
  env = g.env ∙ f.env;
  counter = omega (arith, f.counter, g.counter);
  file = λ q h.
      g.file q (λ n a b e. h n (omega (arith, f.counter)) b (rw f.pid at e))
      ∙ f.file q (λ n a b e. h n a (omega (arith, g.counter)) e);
}

-- The write of one rewritten file.
abbrev pub rewritten : Text → Process → Process
rewritten content w =
    write_file (params_path w.pid w.params_counter) content
      (record w { params_counter = w.params_counter + 1 })

pub params_counter-rewritten :
    (content : Text) (w : Process) → (rewritten content w).params_counter ≡ w.params_counter + 1
unfolding write_file
params_counter-rewritten content w = ground arith

pub Frame-rewritten : (content : Text) (w : Process) → Frame w (rewritten content w)
Frame-rewritten content w = record {
  pid = unfold write_file in ground arith;
  can_write = unfold write_file in ground arith;
  env = unfold write_file in ground arith;
  counter = omega (arith, params_counter-rewritten content w);
  file = λ q h.
      file-write_file_ne (params_path w.pid w.params_counter) content q
        (record w { params_counter = w.params_counter + 1 })
        (h w.params_counter (omega arith) (omega (arith, params_counter-rewritten content w)));
}

-- The parameters that a rewrite is for, if there is one.
unfoldable pub first_named : {D : Type 0} → Text → Options D → Option (List (Parameter D))
first_named root [] = none
first_named root ((name, ps) ∷ os) = if text_eq name root then some ps else first_named root os

unfoldable pub target : {D : Type 0} → Text → Options D → Option (List (Parameter D))
target root os = if text_eq root (codes "/**") then none else first_named root os

module _ {D : Type 0} (parse_yaml : Text → Option (Options D)) (show_double : D → Text) where
  abbrev pub outcome : Text → Process → Option (List (Parameter D)) → Text × Process
  outcome path w none = (path, w)
  outcome path w (some ps) =
      (params_path w.pid w.params_counter, rewritten (global_yaml show_double ps) w)

  rewrite_options_lem :
      (path root : Text) (os : Options D) (w : Process)
      → rewrite_options parse_yaml show_double path root os w ≡ outcome path w (first_named root os)
  unfolding rewrite_options first_named
  rewrite_options_lem path root [] w = refl
  rewrite_options_lem path root ((name, ps) ∷ os) w = elim (Bool-cases (text_eq name root)) [
    | inl e ↦ rw (e, outcome) refl
    | inr e ↦ rw (e, outcome) (rewrite_options_lem path root os w)
  ]

  load-none :
      (path : Text) (w : Process) (os : Options D)
      → w.file path ≡ none
      → load parse_yaml show_double path w ≢ some os
  unfolding load
  load-none path w os f h = ground arith

  pub rewrite_yaml_as_global_lem :
      (path root : Text) (w : Process) (os : Options D)
      → load parse_yaml show_double path w ≡ some os
      → rewrite_yaml_as_global parse_yaml show_double path root w ≡ outcome path w (target root os)
  unfolding rewrite_yaml_as_global target
  rewrite_yaml_as_global_lem path root w os h = elim (Bool-cases (text_eq root (codes "/**"))) [
    | inl e ↦ rw (e, outcome) refl
    | inr e ↦ elim (Option-cases (w.file path)) [
      | inl f ↦ absurd (load-none path w os f h)
      | inr (c, f) ↦
          rw (e, f, rewrite_yaml_as_global) (rw (h, outcome) (rewrite_options_lem path root os w))
    ]
  ]
