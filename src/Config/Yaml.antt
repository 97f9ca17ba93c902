-- ===== src/Config/Yaml.antt =====
-- The parameters that a YAML file gives, and the file that `_rewrite_yaml_as_global` writes for
-- them (lf-src/lf-include/utils.hpp). `D` stands for the doubles of the parameter library.
use lf_autoware.Base.{
  suc, Bool, true, false, List, [], ◌∷◌, ◌++◌, Text, codes, ℤ, pos, negsuc, to_string,
}

pub data Value (D : Type 0) : Type 0 where
  bool : Bool → Value D
  integer : ℤ → Value D
  double : D → Value D
  text : Text → Value D
  -- arrays, byte strings and parameters that are not set
  other : Value D

pub record Parameter (D : Type 0) : Type 0 where
  pub name : Text
  pub value : Value D

-- What rclcpp::parameter_map_from gives: the parameters under each node name.
abbrev pub Options : Type 0 → Type 0
Options D = List (Text × List (Parameter D))

abbrev pub show_bool : Bool → Text
show_bool true = codes "true"
show_bool false = codes "false"

abbrev pub show_int : ℤ → Text
show_int (pos n) = to_string n
show_int (negsuc n) = codes "-" ++ to_string (suc n)

module _ {D : Type 0} (show_double : D → Text) where
  -- The `switch` over the type of a parameter; the default case writes nothing.
  unfoldable pub line : Text → Value D → Text
  line name (bool b) = codes "    " ++ (name ++ (codes ": " ++ (show_bool b ++ codes "\n")))
  line name (integer n) = codes "    " ++ (name ++ (codes ": " ++ (show_int n ++ codes "\n")))
  line name (double d) = codes "    " ++ (name ++ (codes ": " ++ (show_double d ++ codes "\n")))
  line name (text t) = codes "    " ++ (name ++ (codes ": \"" ++ (t ++ codes "\"\n")))
  line name other = []

  unfoldable pub lines : List (Parameter D) → Text
  unfolding line
  lines [] = []
  lines (p ∷ ps) = line p.name p.value ++ lines ps

  unfoldable pub global_yaml : List (Parameter D) → Text
  unfolding lines
  global_yaml ps = codes "/**:\n" ++ (codes "  ros__parameters:\n" ++ lines ps)
