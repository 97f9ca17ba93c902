-- ===== src/Tests/Startups.antt =====
-- Instances of the theorems on the startup reactions.
use mathlib.Core.Path.{subst}
use mathlib.Core.Option
use lf_autoware.Base.{
  ℕ, Bool, false, ◌≡◌, refl, ap, true, Option, none, some, [], ◌∷◌, Text, codes, text_eq,
  if◌then◌else◌, pos,
}
use lf_autoware.Config.Yaml.{integer, Options}
use lf_autoware.Config.Process.{Process}
use lf_autoware.Config.Options.{load}
use lf_autoware.Config.Options.Frame.{first_named}
use lf_autoware.Config.Options.Yamls.{IsUnique}
use lf_autoware.Startup.{path, startup}
use lf_autoware.Startup.Expected.{expected, startup-eq-expected}
use lf_autoware.Startup.Paths.Control.{vehicle_cmd_gate_param}
use lf_autoware.Startup.Setups.Control.{vehicle_cmd_gate}

abbrev gate_options : Options ℕ
gate_options =
    (codes "/**", record { name = codes "update_rate"; value = integer (pos 10) } ∷ []) ∷ []

abbrev parse_yaml : Text → Option (Options ℕ)
parse_yaml content = if text_eq content (codes "gate") then some gate_options else none

abbrev show_double : ℕ → Text
show_double d = []

-- The parameter file of the gate is there, and the one on the vehicle is not.
abbrev disk : Process
disk = record {
  file = λ q.
      if text_eq q (path (codes "/aw") vehicle_cmd_gate_param) then some (codes "gate") else none;
  can_write = λ q. true;
  env = λ n. some (codes "/aw");
  pid = 7;
  params_counter = 0;
  resolved_counter = 0;
}

chosen-IsUnique :
    (b : Bool) (os : Options ℕ) → (if b then some gate_options else none) ≡ some os → IsUnique os
unfolding first_named
chosen-IsUnique true os e =
    subst IsUnique (ap (λ (o : Option (Options ℕ)). elim o [ none ↦ gate_options | some a ↦ a ]) e)
      (refl, tt)
chosen-IsUnique false os e = cc

parsed-IsUnique :
    (o : Option Text) (os : Options ℕ)
    → elim o [ none ↦ none | some content ↦ parse_yaml content ] ≡ some os
    → IsUnique os
parsed-IsUnique none os e = cc
parsed-IsUnique (some content) os e = chosen-IsUnique (text_eq content (codes "gate")) os e

load-IsUnique :
    (file : Text) (os : Options ℕ) → load parse_yaml show_double file disk ≡ some os → IsUnique os
unfolding load
load-IsUnique file os e = parsed-IsUnique (disk.file file) os e

startup-eq-expected_example :
    startup parse_yaml show_double vehicle_cmd_gate disk
    ≡ Option.map
        (λ o. (o, disk))
        (expected
          (λ file. load parse_yaml show_double file disk)
          (some (codes "/aw"))
          vehicle_cmd_gate)
startup-eq-expected_example =
    startup-eq-expected parse_yaml show_double vehicle_cmd_gate disk load-IsUnique
