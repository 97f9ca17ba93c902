-- ===== src/Tests/Centerpoints.antt =====
-- A start of `lidar_centerpoint`, with a parser that finds no parameters in any text.
use lf_autoware.Base.{
  ℕ, ◌≡◌, refl, true, Option, none, some, [], Text, codes, text_eq, if◌then◌else◌,
}
use lf_autoware.Config.Yaml.{Options}
use lf_autoware.Config.Process.{Process, resolved_path}
use lf_autoware.Config.Options.{load}
use lf_autoware.Config.Substitute.Loop.{substitute_each}
use lf_autoware.Config.Resolve.{done}
use lf_autoware.Startup.{path}
use lf_autoware.Startup.Expected.{options_of, loader}
use lf_autoware.Startup.Centerpoint.{
  lidar_centerpoint_param, model_values, model_files, lidar_centerpoint_startup, model_process,
  lidar_centerpoint_startup_lem,
}

abbrev parse_yaml : Text → Option (Options ℕ)
parse_yaml content = some []

abbrev show_double : ℕ → Text
show_double d = []

abbrev template : Text
template = codes "model: $(var model_path)/$(var model_name)"

abbrev disk : Process
disk = record {
  file =
      λ q. if text_eq q (path (codes "/aw") lidar_centerpoint_param) then some template else none;
  can_write = λ q. true;
  env = λ n. some (codes "/aw");
  pid = 7;
  params_counter = 0;
  resolved_counter = 2;
}

template-there : disk.file (path (codes "/aw") lidar_centerpoint_param) ≡ some template
unfolding text_eq
template-there = refl

lidar_centerpoint_startup_lem_example :
    (lidar_centerpoint_startup parse_yaml show_double disk
      ≡ done (
        options_of
            (loader parse_yaml show_double (model_process template disk))
            (model_files (codes "/aw") (codes "/aw") (resolved_path 7 2))
            [],
        model_process template disk,
      ))
    × (load parse_yaml show_double (resolved_path 7 2) (model_process template disk)
        ≡ parse_yaml (substitute_each (model_values (codes "/aw")) template))
lidar_centerpoint_startup_lem_example =
    lidar_centerpoint_startup_lem parse_yaml show_double (codes "/aw") template disk refl
      template-there refl
