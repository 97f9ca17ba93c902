-- ===== src/Config/Options.antt =====
-- `_rewrite_yaml_as_global`, `get_node_options_from_yaml`, `get_node_options_from_yamls` and
-- `get_lf_autoware_home` (lf-src/lf-include/utils.hpp). The YAML parser and the formatting of
-- doubles are not code of the repository, and are parameters.
pub mod Frame
pub mod Plan
pub mod Planned
pub mod Yamls
pub mod Written
use lf_autoware.Base.{
  ℕ, suc, ◌+◌, Bool, Option, none, some, List, [], ◌∷◌, ◌++◌, Text, codes, text_eq, if◌then◌else◌,
}
use lf_autoware.Config.Yaml.{Parameter, Options, global_yaml}
use lf_autoware.Config.Process.{Process, params_path, write_file}

-- rclcpp::NodeOptions, as far as the functions set it.
pub record NodeOptions (D : Type 0) : Type 0 where
  pub overrides : List (Parameter D)
  pub arguments : List Text

-- nodeOptions.parameter_overrides() = option.second, at each option with the name.
unfoldable pub last_named :
    {D : Type 0} → Text → Options D → List (Parameter D) → List (Parameter D)
last_named root [] ps = ps
last_named root ((name, qs) ∷ os) ps = last_named root os (if text_eq name root then qs else ps)

-- overrides.insert(overrides.end(), …), at each option with the name.
unfoldable pub all_named : {D : Type 0} → Text → Options D → List (Parameter D)
all_named root [] = []
all_named root ((name, qs) ∷ os) =
    if text_eq name root then qs ++ all_named root os else all_named root os

module _ {D : Type 0} (parse_yaml : Text → Option (Options D)) (show_double : D → Text) where
  -- rcl_parse_yaml_file and parameter_map_from; `none` is the parser's failure, also on a file that
  -- is not there.
  unfoldable pub load : Text → Process → Option (Options D)
  load path w = elim (w.file path) [ none ↦ none | some content ↦ parse_yaml content ]

  -- The loop of `_rewrite_yaml_as_global`, which returns from inside at the first match.
  unfoldable pub rewrite_options : Text → Text → Options D → Process → Text × Process
  rewrite_options path root [] w = (path, w)
  rewrite_options path root ((name, ps) ∷ os) w =
      if text_eq name root
      then (
        params_path w.pid w.params_counter,
        write_file (params_path w.pid w.params_counter) (global_yaml show_double ps)
            (record w { params_counter = w.params_counter + 1 }),
      )
      else rewrite_options path root os w

  unfoldable pub rewrite_yaml_as_global : Text → Text → Process → Text × Process
  rewrite_yaml_as_global path root w =
      if text_eq root (codes "/**") then (path, w) else elim (w.file path) [
        | none ↦ (path, w)
        | some content ↦ elim (load path w) [
          | none ↦ (path, w)
          | some options ↦ rewrite_options path root options w
        ]
      ]

  -- `none` is the exit of the process. Both overloads have this body.
  unfoldable pub get_node_options_from_yaml :
      Text → Text → Process → Option (NodeOptions D × Process)
  get_node_options_from_yaml path root w = elim (load path w) [
    | none ↦ none
    | some options ↦
        let (file, w') = rewrite_yaml_as_global path root w in
        some (
          record {
            overrides = last_named root options [];
            arguments = codes "--ros-args" ∷ codes "--params-file" ∷ file ∷ [];
          },
          w',
        )
  ]

  -- One round of the loop of `get_node_options_from_yamls`: a file that does not parse is skipped
  -- with a warning.
  unfoldable pub add_yaml : Text → Text → NodeOptions D × Process → NodeOptions D × Process
  add_yaml path root (o, w) = elim (load path w) [
    | none ↦ (o, w)
    | some options ↦
        let (file, w') = rewrite_yaml_as_global path root w in
        (
          record {
            overrides = o.overrides ++ all_named root options;
            arguments = o.arguments ++ codes "--params-file" ∷ file ∷ [];
          },
          w',
        )
  ]

  unfoldable pub add_yamls : List (Text × Text) → NodeOptions D × Process → NodeOptions D × Process
  add_yamls [] s = s
  add_yamls ((path, root) ∷ cs) s = add_yamls cs (add_yaml path root s)

  unfoldable pub get_node_options_from_yamls :
      List (Text × Text) → Process → NodeOptions D × Process
  get_node_options_from_yamls cs w =
      add_yamls cs (record { overrides = []; arguments = codes "--ros-args" ∷ [] }, w)

-- `none` is the exit of the process.
unfoldable pub get_lf_autoware_home : Process → Option Text
get_lf_autoware_home w = w.env (codes "LF_AUTOWARE_HOME")
