-- ===== src/Startup.antt =====
-- The part of the startup reactions (lf-src/*/*_main.lf) that gives a node its options: the home
-- directory, the parameter files under it, all of them under the node name "/**", and the overrides
-- that the reaction adds at the end.
pub mod Expected
pub mod Paths
pub mod Setups
pub mod MapLoader
pub mod Centerpoint
pub mod Derived
pub mod Channels
pub mod Monitors
use lf_autoware.Base.{Option, none, some, List, [], ◌∷◌, ◌++◌, map, Text, codes}
use lf_autoware.Config.Yaml.{Value, Parameter, Options}
use lf_autoware.Config.Process.{Process}
use lf_autoware.Config.Options.{
  NodeOptions, get_node_options_from_yaml, get_node_options_from_yamls, get_lf_autoware_home,
}

-- Which of the two functions of utils.hpp is called, and the constants of the paths.
pub data Loading : Type 0 where
  from_yaml : Text → Loading
  from_yamls : List Text → Loading

pub record Setup (D : Type 0) : Type 0 where
  pub loading : Loading
  pub extra : List (Parameter D)

abbrev pub parameter : {D : Type 0} → Text → Value D → Parameter D
parameter name value = record { name = name; value = value }

-- home + "/" + param
abbrev pub path : Text → Text → Text
path home param = home ++ (codes "/" ++ param)

abbrev pub global_name : Text
global_name = codes "/**"

module _ {D : Type 0} where
  -- nodeOptions.parameter_overrides().push_back(…), for each of the extra parameters.
  abbrev pub push_back :
      List (Parameter D) → Option (NodeOptions D × Process) → Option (NodeOptions D × Process)
  push_back extra none = none
  push_back extra (some (o, w)) = some (record o { overrides = o.overrides ++ extra }, w)

module _ {D : Type 0} (parse_yaml : Text → Option (Options D)) (show_double : D → Text) where
  unfoldable pub load_options : Text → Loading → Process → Option (NodeOptions D × Process)
  load_options home (from_yaml param) w =
      get_node_options_from_yaml parse_yaml show_double (path home param) global_name w
  load_options home (from_yamls params) w = some (
      get_node_options_from_yamls parse_yaml show_double
        (map (λ param. (path home param, global_name)) params) w)

  -- The options that the node is built with; `none` is an exit of the process.
  unfoldable pub startup : Setup D → Process → Option (NodeOptions D × Process)
  startup s w = elim (get_lf_autoware_home w) [
    | none ↦ none
    | some home ↦ push_back s.extra (load_options home s.loading w)
  ]
