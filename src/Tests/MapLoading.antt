-- ===== src/Tests/MapLoading.antt =====
-- A start of `pointcloud_map_loader`, with a parser that finds no parameters in any text.
use lf_autoware.Base.{
  ℕ, ◌≡◌, refl, true, Option, none, some, [], Text, codes, text_eq, if◌then◌else◌,
}
use lf_autoware.Config.Yaml.{Options}
use lf_autoware.Config.Process.{Process, resolved_path}
use lf_autoware.Config.Substitute.Loop.{substitute_each}
use lf_autoware.Startup.{path}
use lf_autoware.Startup.MapLoader.{
  pointcloud_map_loader_param, map_values, pointcloud_map_loader_startup, resolved_outcome,
  resolved_process, pointcloud_map_loader_startup_lem,
}

abbrev parse_yaml : Text → Option (Options ℕ)
parse_yaml content = some []

abbrev show_double : ℕ → Text
show_double d = []

abbrev template : Text
template = codes "path: $(var pointcloud_map_path)"

abbrev disk : Process
disk = record {
  file = λ q.
      if text_eq q (path (codes "/aw") pointcloud_map_loader_param) then some template else none;
  can_write = λ q. true;
  env = λ n. some (codes "/aw");
  pid = 7;
  params_counter = 0;
  resolved_counter = 2;
}

template_there : disk.file (path (codes "/aw") pointcloud_map_loader_param) ≡ some template
unfolding text_eq
template_there = refl

pointcloud_map_loader_startup_lem_example :
    pointcloud_map_loader_startup parse_yaml show_double disk
    ≡ resolved_outcome parse_yaml show_double
        (parse_yaml (substitute_each (map_values (codes "/aw")) template))
        (resolved_path 7 2)
        (resolved_process parse_yaml show_double template disk)
pointcloud_map_loader_startup_lem_example =
    pointcloud_map_loader_startup_lem parse_yaml show_double (codes "/aw") template disk refl
      template_there refl
