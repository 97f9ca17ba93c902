-- ===== src/Tests/Files.antt =====
-- Instances of the theorems on the configuration files, over one file system.
use lf_autoware.Base.{
  ℕ, ◌≡◌, ◌≢◌, refl, ap, ◌⊎◌, true, false, Option, none, some, List, [], ◌∷◌, ◌++◌, Text, codes,
  text_eq, length, ltb, if◌then◌else◌, pos, arith,
}
use lf_autoware.Config.Yaml.{integer, Options}
use lf_autoware.Config.Process.{Process, params_path}
use lf_autoware.Config.Options.{
  NodeOptions, load, get_node_options_from_yaml, get_node_options_from_yamls,
}
use lf_autoware.Config.Options.Frame.{first_named, target}
use lf_autoware.Config.Options.Written.{IsHanded, get_node_options_from_yaml-IsHanded}
use mathlib.Core.Path.{subst}
use lf_autoware.Config.Options.Plan.{IsPlanned}
use lf_autoware.Config.Options.Yamls.{
  IsUnique, get_node_options_from_yamls-IsPlanned, get_node_options_from_yaml_one,
}
use lf_autoware.Config.Resolve.{
  exited, done, resolve_yaml_vars, IsResolved, resolve_yaml_vars-IsResolved,
}
use lf_autoware.Config.Substitute.{replace_from, replace_all}
use lf_autoware.Config.Substitute.Loop.{
  substitute_each, replace_all-eq-substitute_each, replace_from-nil_diverges,
}
use lf_autoware.Config.Spin.{
  spin_node, spin_node_with_executor, Leaves, fresh_node, left_after, spin_rounds,
}

abbrev mpc : Options ℕ
mpc = (codes "node", record { name = codes "rate"; value = integer (pos 30) } ∷ []) ∷ []

-- A parser that knows one text.
abbrev parse_yaml : Text → Option (Options ℕ)
parse_yaml t = if text_eq t (codes "mpc") then some mpc else none

abbrev show_double : ℕ → Text
show_double n = codes "0.5"

abbrev disk : Process
disk = record {
  file = λ q.
      if text_eq q (codes "a.yaml")
      then some (codes "mpc")
      else if text_eq q (codes "b.yaml")
      then some (codes "$(var x)!")
      else none;
  can_write = λ q. true;
  env = λ n. none;
  pid = 7;
  params_counter = 3;
  resolved_counter = 0;
}

abbrev configs : List (Text × Text)
configs = (codes "a.yaml", codes "node") ∷ (codes "gone.yaml", codes "/**") ∷ []

abbrev no_options : NodeOptions ℕ
no_options = record { overrides = []; arguments = codes "--ros-args" ∷ [] }

a_IsForeign : (n : ℕ) → codes "a.yaml" ≢ params_path 7 n
unfolding params_path
a_IsForeign n e = cc

gone_IsForeign : (n : ℕ) → codes "gone.yaml" ≢ params_path 7 n
unfolding params_path
gone_IsForeign n e = cc

get_node_options_from_yamls-IsPlanned_example :
    IsPlanned parse_yaml show_double
      (λ path. load parse_yaml show_double path disk)
      disk
      configs
      no_options
      (get_node_options_from_yamls parse_yaml show_double configs disk)
get_node_options_from_yamls-IsPlanned_example =
    get_node_options_from_yamls-IsPlanned parse_yaml show_double configs disk
      (a_IsForeign, (gone_IsForeign, tt))

load-mpc : (os : Options ℕ) → load parse_yaml show_double (codes "a.yaml") disk ≡ some os → mpc ≡ os
unfolding load text_eq
load-mpc os e = ap (λ (o : Option (Options ℕ)). elim o [ none ↦ mpc | some a ↦ a ]) e

load-IsUnique :
    (os : Options ℕ) → load parse_yaml show_double (codes "a.yaml") disk ≡ some os → IsUnique os
unfolding first_named
load-IsUnique os e = subst IsUnique (load-mpc os e) (refl, tt)

get_node_options_from_yaml_one_example :
    ((load parse_yaml show_double (codes "a.yaml") disk ≡ none)
      × (get_node_options_from_yaml parse_yaml show_double (codes "a.yaml") (codes "node") disk
          ≡ none)
      × (get_node_options_from_yamls parse_yaml show_double
            ((codes "a.yaml", codes "node") ∷ [])
            disk
          ≡ (no_options, disk)))
    ⊎ ((os : Options ℕ) × (load parse_yaml show_double (codes "a.yaml") disk ≡ some os)
        × (get_node_options_from_yaml parse_yaml show_double (codes "a.yaml") (codes "node") disk
            ≡ some (
                get_node_options_from_yamls parse_yaml show_double
                  ((codes "a.yaml", codes "node") ∷ [])
                  disk)))
get_node_options_from_yaml_one_example =
    get_node_options_from_yaml_one parse_yaml show_double (codes "a.yaml") (codes "node") disk
      load-IsUnique

-- A disk on which nothing can be written.
abbrev full : Process
full = record disk { can_write = λ q. false }

full-load : load parse_yaml show_double (codes "a.yaml") full ≡ some mpc
unfolding load text_eq
full-load = refl

full-target :
    target (codes "node") mpc ≡ some (record { name = codes "rate"; value = integer (pos 30) } ∷ [])
unfolding target first_named text_eq
full-target = refl

get_node_options_from_yaml-IsHanded_example :
    IsHanded parse_yaml show_double
      (codes "a.yaml")
      (codes "node")
      full
      mpc
      (record { name = codes "rate"; value = integer (pos 30) } ∷ [])
get_node_options_from_yaml-IsHanded_example =
    get_node_options_from_yaml-IsHanded parse_yaml show_double (codes "a.yaml") (codes "node") full
      mpc (record { name = codes "rate"; value = integer (pos 30) } ∷ []) full-load full-target

abbrev replacements : List (Text × Text)
replacements = (codes "$(var x)", codes "[$(var x)]") ∷ []

proper : codes "$(var x)" ≢ []
proper e = cc

replace_all-eq-substitute_each_example :
    replace_all replacements (codes "$(var x)$(var x)!")
    ≡ some (substitute_each replacements (codes "$(var x)$(var x)!"))
replace_all-eq-substitute_each_example =
    replace_all-eq-substitute_each replacements (codes "$(var x)$(var x)!") (proper, tt)

replace_from-nil_diverges_example :
    replace_from 1000 [] (codes "v") (codes "ab" ++ codes "c") (length (codes "ab")) ≡ none
replace_from-nil_diverges_example =
    replace_from-nil_diverges 1000 (codes "ab") (codes "c") (codes "v")

resolve_yaml_vars-IsResolved_example :
    ((disk.file (codes "b.yaml") ≡ none)
      × (resolve_yaml_vars (codes "b.yaml") replacements disk ≡ exited))
    ⊎ ((content : Text) × (r : Text × Process) × (disk.file (codes "b.yaml") ≡ some content)
        × (resolve_yaml_vars (codes "b.yaml") replacements disk ≡ done r)
        × IsResolved content replacements disk r)
resolve_yaml_vars-IsResolved_example =
    resolve_yaml_vars-IsResolved (codes "b.yaml") replacements disk (proper, tt)

spin_rounds_example :
    Leaves (spin_node (λ n. ltb n 2) 5) fresh_node (left_after false 2)
    × Leaves (spin_node_with_executor (λ n. ltb n 2) 5) fresh_node (left_after true 2)
spin_rounds_example = spin_rounds (λ n. ltb n 2) 2 5 (omega arith) (refl, (refl, refl))
