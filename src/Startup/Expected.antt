-- ===== src/Startup/Expected.antt =====
-- What a startup reaction gives its node, read off the files.
use mathlib.Core.Option
use lf_autoware.Base.{
  ◌≡◌, refl, ap, ◌∙◌, Option, none, some, List, [], ◌∷◌, ◌++◌, map, Text, codes, text_eq,
  Option-cases, inl, inr, append_assoc, append-nil,
}
use lf_autoware.Config.Yaml.{Parameter, Options}
use lf_autoware.Config.Process.{Process}
use lf_autoware.Config.Options.{
  NodeOptions, load, all_named, rewrite_yaml_as_global, add_yaml, add_yamls,
  get_node_options_from_yaml, get_node_options_from_yamls, get_lf_autoware_home,
}
use lf_autoware.Config.Options.Plan.{Loader}
use lf_autoware.Config.Options.Planned.{add_yaml-none}
use lf_autoware.Config.Options.Yamls.{IsUnique, last_named-eq-all_named}
use lf_autoware.Startup.{
  Loading, from_yaml, from_yamls, Setup, path, global_name, load_options, push_back, startup,
}

module _ {D : Type 0} where
  -- The global parameters of the files that parse, in order.
  unfoldable pub parameters : Loader D → List Text → List (Parameter D)
  parameters ld [] = []
  parameters ld (p ∷ ps) = elim (ld p) [
    | none ↦ parameters ld ps
    | some os ↦ all_named global_name os ++ parameters ld ps
  ]

  -- Each file that parses, as it is, behind "--params-file".
  unfoldable pub file_flags : Loader D → List Text → List Text
  file_flags ld [] = []
  file_flags ld (p ∷ ps) = elim (ld p) [
    | none ↦ file_flags ld ps
    | some os ↦ codes "--params-file" ∷ p ∷ file_flags ld ps
  ]

  abbrev pub options_of : Loader D → List Text → List (Parameter D) → NodeOptions D
  options_of ld files extra = record {
    overrides = parameters ld files ++ extra;
    arguments = codes "--ros-args" ∷ file_flags ld files;
  }

  -- One file has to parse; of several those count that parse.
  abbrev pub expected_from : Loader D → Text → Loading → List (Parameter D) → Option (NodeOptions D)
  expected_from ld home (from_yaml param) extra = elim (ld (path home param)) [
    | none ↦ none
    | some os ↦ some (options_of ld (path home param ∷ []) extra)
  ]
  expected_from ld home (from_yamls params) extra =
      some (options_of ld (map (path home) params) extra)

  -- Without a home there are no options.
  abbrev pub expected : Loader D → Option Text → Setup D → Option (NodeOptions D)
  expected ld none s = none
  expected ld (some home) s = expected_from ld home s.loading s.extra

module _ {D : Type 0} (parse_yaml : Text → Option (Options D)) (show_double : D → Text) where
  abbrev pub loader : Process → Loader D
  loader w file = load parse_yaml show_double file w

  -- Under the name "/**" no file is rewritten.
  pub not_rewritten :
      (file : Text) (w : Process)
      → rewrite_yaml_as_global parse_yaml show_double file global_name w ≡ (file, w)
  unfolding rewrite_yaml_as_global text_eq
  not_rewritten file w = refl

  abbrev configs : Text → List Text → List (Text × Text)
  configs home params = map (λ param. (path home param, global_name)) params

  add_yaml_global :
      (file : Text) (o : NodeOptions D) (w : Process) (os : Options D)
      → load parse_yaml show_double file w ≡ some os
      → add_yaml parse_yaml show_double file global_name (o, w) ≡ (
        record {
          overrides = o.overrides ++ all_named global_name os;
          arguments = o.arguments ++ codes "--params-file" ∷ file ∷ [];
        },
        w,
      )
  unfolding add_yaml
  add_yaml_global file o w os e = rw (e, add_yaml) (rw (not_rewritten file w) refl)

  abbrev pub global_configs : List Text → List (Text × Text)
  global_configs files = map (λ file. (file, global_name)) files

  -- What the loop over several files adds to the options.
  pub add_yamls_global :
      (files : List Text) (o : NodeOptions D) (w : Process)
      → add_yamls parse_yaml show_double (global_configs files) (o, w) ≡ (
        record {
          overrides = o.overrides ++ parameters (loader w) files;
          arguments = o.arguments ++ file_flags (loader w) files;
        },
        w,
      )
  unfolding add_yamls parameters file_flags
  add_yamls_global [] o w = simp append-nil
  add_yamls_global (f ∷ fs) o w = elim (Option-cases (load parse_yaml show_double f w)) [
    | inl e ↦
        ap (add_yamls parse_yaml show_double (global_configs fs))
          (add_yaml-none parse_yaml show_double f global_name o w e)
        ∙ rw (e, parameters, file_flags) (add_yamls_global fs o w)
    | inr (os, e) ↦
        ap (add_yamls parse_yaml show_double (global_configs fs)) (add_yaml_global f o w os e)
        ∙ rw (e, parameters, file_flags)
            (add_yamls_global fs _ w ∙ rw (append_assoc, append_assoc) refl)
  ]

  configs_lem :
      (home : Text) (params : List Text)
      → configs home params ≡ global_configs (map (path home) params)
  configs_lem home [] = refl
  configs_lem home (p ∷ ps) = ap (λ l. (path home p, global_name) ∷ l) (configs_lem home ps)

  pub loaded :
      (home : Text) (l : Loading) (extra : List (Parameter D)) (w : Process)
      → ((file : Text) (os : Options D)
          → load parse_yaml show_double file w ≡ some os
          → IsUnique os)
      → push_back extra (load_options parse_yaml show_double home l w)
        ≡ Option.map (λ o. (o, w)) (expected_from (loader w) home l extra)
  unfolding load_options get_node_options_from_yaml get_node_options_from_yamls parameters
      file_flags
  loaded home (from_yaml param) extra w u =
      elim (Option-cases (load parse_yaml show_double (path home param) w)) [
        | inl e ↦ rw (e, get_node_options_from_yaml, expected_from) refl
        | inr (os, e) ↦
            rw (e, get_node_options_from_yaml, expected_from)
              (rw (e, not_rewritten, parameters, file_flags)
                (rw (last_named-eq-all_named global_name os (u (path home param) os e), append-nil)
                  refl))
      ]
  loaded home (from_yamls params) extra w u =
      rw (configs_lem home params, add_yamls_global (map (path home) params)) refl

  -- If a file that parses has each node name once, a startup reaction leaves the process as it is
  -- and gives its node what is expected: nothing without the home directory or if its only file does
  -- not parse, and else the parameters of the files that parse, in order, the extra ones behind
  -- them, and these files themselves as arguments.
  pub startup-eq-expected :
      (s : Setup D) (w : Process)
      → ((file : Text) (os : Options D)
          → load parse_yaml show_double file w ≡ some os
          → IsUnique os)
      → startup parse_yaml show_double s w
        ≡ Option.map
            (λ o. (o, w))
            (expected
              (λ file. load parse_yaml show_double file w)
              (w.env (codes "LF_AUTOWARE_HOME"))
              s)
  unfolding startup get_lf_autoware_home
  startup-eq-expected s w u = elim (Option-cases (w.env (codes "LF_AUTOWARE_HOME"))) [
    | inl e ↦ rw (e, startup) refl
    | inr (home, e) ↦ rw (e, startup) (loaded home s.loading s.extra w u)
  ]
