-- ===== src/Tests/Derivations.antt =====
-- Starts whose reactions compute parameters, and a start of system_monitor, in a process in which
-- every file holds one global parameter.
use mathlib.Core.Path.{subst}
use mathlib.Core.Option
use lf_autoware.Base.{
  ℕ, ◌≡◌, refl, ap, true, Option, none, some, [], ◌∷◌, Text, codes, arith, pos, length, to_string,
}
use lf_autoware.Config.Yaml.{integer, Options}
use lf_autoware.Config.Process.{Process}
use lf_autoware.Config.Options.{load}
use lf_autoware.Config.Options.Frame.{first_named}
use lf_autoware.Config.Options.Yamls.{IsUnique}
use lf_autoware.Startup.Derived.{detection_id, no_channels, multi_object_tracker, startup_with}
use lf_autoware.Startup.Expected.{options_of, loader}
use lf_autoware.Startup.Channels.{tracker_files, IsConfigured, multi_object_tracker_startup_lem}
use lf_autoware.Startup.Monitors.{
  expected_monitors, system_monitor_startup, system_monitor-eq-expected,
}

abbrev rate : Options ℕ
rate = (codes "/**", record { name = codes "update_rate"; value = integer (pos 10) } ∷ []) ∷ []

abbrev parse_yaml : Text → Option (Options ℕ)
parse_yaml content = some rate

abbrev show_double : ℕ → Text
show_double d = []

abbrev disk : Process
disk = record {
  file = λ q. some (codes "rate");
  can_write = λ q. true;
  env = λ n. some (codes "/aw");
  pid = 7;
  params_counter = 0;
  resolved_counter = 0;
}

rate-IsUnique :
    (file : Text) (os : Options ℕ) → load parse_yaml show_double file disk ≡ some os → IsUnique os
unfolding load first_named
rate-IsUnique file os e =
    subst IsUnique (ap (λ (o : Option (Options ℕ)). elim o [ none ↦ rate | some a ↦ a ]) e)
      (refl, tt)

detection_id_padded : detection_id 9 ≡ codes "detection09"
unfolding to_string
detection_id_padded = refl

detection_id_long : detection_id 12 ≡ codes "detection12"
unfolding to_string
detection_id_long = refl

-- Two parameters for each of the channels 2 to 12.
channels_counted : length (no_channels {D = ℕ} 11 2) ≡ 22
channels_counted = refl

multi_object_tracker_startup_lem_example :
    (startup_with parse_yaml show_double multi_object_tracker disk
      ≡ some (
        options_of
            (loader parse_yaml show_double disk)
            (tracker_files (codes "/aw"))
            (multi_object_tracker (codes "/aw") disk).extra,
        disk,
      ))
    × IsConfigured (multi_object_tracker {D = ℕ} (codes "/aw") disk).extra 11
multi_object_tracker_startup_lem_example =
    multi_object_tracker_startup_lem parse_yaml show_double (codes "/aw") disk 10 refl rate-IsUnique
      (omega arith)

system_monitor-eq-expected_example :
    system_monitor_startup parse_yaml show_double disk
    ≡ Option.map
        (λ os. (os, disk))
        (expected_monitors (λ file. load parse_yaml show_double file disk) (some (codes "/aw")))
system_monitor-eq-expected_example =
    system_monitor-eq-expected parse_yaml show_double disk rate-IsUnique
