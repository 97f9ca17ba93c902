-- ===== src/Config/Options/Written.antt =====
-- The parameter file that `get_node_options_from_yaml` hands to the node, when it is a rewritten one,
-- and what becomes of it when the write fails: std::ofstream is not checked.
use lf_autoware.Base.{
  ◌+◌, ◌≡◌, refl, ap, ◌∙◌, false, Option, none, some, List, [], ◌∷◌, Text, codes, Bool-cases, inl,
  inr, if◌then◌else◌,
}
use lf_autoware.Config.Yaml.{Parameter, Options, global_yaml}
use lf_autoware.Config.Process.{Process, params_path, write_file, file-write_file_self}
use lf_autoware.Config.Options.{NodeOptions, last_named, load, get_node_options_from_yaml}
use lf_autoware.Config.Options.Frame.{target, rewritten, outcome, rewrite_yaml_as_global_lem}

-- The path of the next rewritten file.
abbrev pub next_path : Process → Text
next_path w = params_path w.pid w.params_counter

module _ {D : Type 0} (parse_yaml : Text → Option (Options D)) (show_double : D → Text) where
  load-some :
      (q c : Text) (v : Process)
      → v.file q ≡ some c
      → load parse_yaml show_double q v ≡ parse_yaml c
  unfolding load
  load-some q c v e = ap (λ (o : Option Text). elim o [ none ↦ none | some c ↦ parse_yaml c ]) e

  load-same :
      (q : Text) (v w : Process)
      → v.file q ≡ w.file q
      → load parse_yaml show_double q v ≡ load parse_yaml show_double q w
  unfolding load
  load-same q v w e = ap (λ (o : Option Text). elim o [ none ↦ none | some c ↦ parse_yaml c ]) e

  file-unwritten :
      (q content : Text) (v : Process) → v.can_write q ≡ false → write_file q content v ≡ v
  unfolding write_file
  file-unwritten q content v e = rw e refl

  load-rewritten :
      (content : Text) (w : Process)
      → load parse_yaml show_double (next_path w) (rewritten content w) ≡ (
          if w.can_write (next_path w)
          then parse_yaml content
          else load parse_yaml show_double (next_path w) w)
  load-rewritten content w =
      let counted = record w { params_counter = w.params_counter + 1 } in
      elim (Bool-cases (w.can_write (next_path w))) [
        | inl e ↦
            load-some (next_path w) content (rewritten content w)
              (file-write_file_self (next_path w) content counted e)
            ∙ (rw e refl)
        | inr e ↦
            load-same (next_path w) (rewritten content w) w (
              ap (λ (v : Process). v.file (next_path w))
                (file-unwritten (next_path w) content counted e))
            ∙ (rw e refl)
      ]

  -- What the parser finds in the parameter file of the node.
  pub record IsHanded (path root : Text) (w : Process) (os : Options D) (ps : List (Parameter D))
      : Type 0 where
    pub options : NodeOptions D
    pub process : Process
    pub returned :
        get_node_options_from_yaml parse_yaml show_double path root w ≡ some (options, process)
    pub overrides : options.overrides ≡ last_named root os []
    pub arguments :
        options.arguments ≡ codes "--ros-args" ∷ codes "--params-file" ∷ next_path w ∷ []
    pub loaded : load parse_yaml show_double (next_path w) process ≡ (
        if w.can_write (next_path w)
        then parse_yaml (global_yaml show_double ps)
        else load parse_yaml show_double (next_path w) w)

  -- If the file parses and has parameters `ps` under the root name, which is not "/**",
  -- `get_node_options_from_yaml` returns, with the overrides of the last such name and with a new
  -- file as the parameter file. If that file can be written, the parser finds there what it makes of
  -- the rewritten text; if not, no error is reported and it finds what was at that path before.
  pub get_node_options_from_yaml-IsHanded :
      (path root : Text) (w : Process) (os : Options D) (ps : List (Parameter D))
      → load parse_yaml show_double path w ≡ some os
      → target root os ≡ some ps
      → IsHanded path root w os ps
  unfolding get_node_options_from_yaml
  get_node_options_from_yaml-IsHanded path root w os ps e t = record {
    options = record {
      overrides = last_named root os [];
      arguments = codes "--ros-args" ∷ codes "--params-file" ∷ next_path w ∷ [];
    };
    process = rewritten (global_yaml show_double ps) w;
    returned =
        rw (e, get_node_options_from_yaml)
          (rw (rewrite_yaml_as_global_lem parse_yaml show_double path root w os e)
            (rw (t, outcome) refl));
    overrides = refl;
    arguments = refl;
    loaded = load-rewritten (global_yaml show_double ps) w;
  }
