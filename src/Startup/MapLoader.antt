-- ===== src/Startup/MapLoader.antt =====
-- The startup reaction of `pointcloud_map_loader`
-- (lf-src/pointcloud_map_loader/pointcloud_map_loader_main.lf), which replaces launch variables in
-- its parameter file before it loads it.
use lf_autoware.Base.{
  ◌+◌, ◌≡◌, refl, ap, ◌∙◌, true, Option, none, some, List, [], ◌∷◌, ◌++◌, All, Text, codes,
  Option-cases, inl, inr, append_assoc,
}
use lf_autoware.Config.Yaml.{Options}
use lf_autoware.Config.Process.{Process, resolved_path, file-write_file_self}
use lf_autoware.Config.Options.{
  NodeOptions, last_named, load, get_node_options_from_yaml, get_lf_autoware_home,
}
use lf_autoware.Config.Substitute.Loop.{substitute_each, IsProper}
use lf_autoware.Config.Resolve.{
  Ending, done, exited, out_of_rounds, resolve_yaml_vars, written_copy,
  resolve_yaml_vars-written_copy,
}
use lf_autoware.Startup.{path, global_name}
use lf_autoware.Startup.Expected.{not_rewritten}
use lf_autoware.Startup.Paths.Common.{launcher_config_path}

abbrev pub pointcloud_map_loader_param : Text
pointcloud_map_loader_param = launcher_config_path ++ codes "/map/pointcloud_map_loader.param.yaml"

-- std::string(h ? h : "/root") + "/autoware_map/Town01"
unfoldable pub get_default_map_path : Process → Text
get_default_map_path w =
    elim (w.env (codes "HOME")) [ none ↦ codes "/root" | some h ↦ h ]
    ++ codes "/autoware_map/Town01"

abbrev pub map_replacements : Text → List (Text × Text)
map_replacements map_path =
    (codes "$(var pointcloud_map_path)", map_path ++ codes "/pointcloud_map.pcd")
    ∷ (
      codes "$(var pointcloud_map_metadata_path)",
      map_path ++ codes "/pointcloud_map_metadata.yaml",
    )
    ∷ []

-- The directory that the environment variable HOME gives, or "/root" without it.
abbrev pub user_home : Option Text → Text
user_home none = codes "/root"
user_home (some h) = h

-- What the launch variables of the parameter file stand for.
abbrev pub map_values : Text → List (Text × Text)
map_values user =
    (codes "$(var pointcloud_map_path)", user ++ codes "/autoware_map/Town01/pointcloud_map.pcd")
    ∷ (
      codes "$(var pointcloud_map_metadata_path)",
      user ++ codes "/autoware_map/Town01/pointcloud_map_metadata.yaml",
    )
    ∷ []

get_default_map_path_lem :
    (w : Process)
    → get_default_map_path w ≡ user_home (w.env (codes "HOME")) ++ codes "/autoware_map/Town01"
unfolding get_default_map_path
get_default_map_path_lem w = elim (Option-cases (w.env (codes "HOME"))) [
  | inl e ↦ rw (e, get_default_map_path, user_home) refl
  | inr (h, e) ↦ rw (e, get_default_map_path, user_home) refl
]

map_replacements_lem :
    (w : Process)
    → map_replacements (get_default_map_path w) ≡ map_values (user_home (w.env (codes "HOME")))
map_replacements_lem w =
    let user = user_home (w.env (codes "HOME")) in
    ap map_replacements (get_default_map_path_lem w)
    ∙ ap
        (λ file.
          (codes "$(var pointcloud_map_path)", file)
          ∷ (
            codes "$(var pointcloud_map_metadata_path)",
            (user ++ codes "/autoware_map/Town01") ++ codes "/pointcloud_map_metadata.yaml",
          )
          ∷ [])
        (append_assoc user (codes "/autoware_map/Town01") (codes "/pointcloud_map.pcd"))
    ∙ ap
        (λ file.
          (
            codes "$(var pointcloud_map_path)",
            user ++ codes "/autoware_map/Town01/pointcloud_map.pcd",
          )
          ∷ (codes "$(var pointcloud_map_metadata_path)", file)
          ∷ [])
        (append_assoc user (codes "/autoware_map/Town01") (codes "/pointcloud_map_metadata.yaml"))

module _ {D : Type 0} (parse_yaml : Text → Option (Options D)) (show_double : D → Text) where
  abbrev pub load_resolved : Ending (Text × Process) → Ending (NodeOptions D × Process)
  load_resolved exited = exited
  load_resolved out_of_rounds = out_of_rounds
  load_resolved (done (file, w)) =
      elim (get_node_options_from_yaml parse_yaml show_double file global_name w) [
        | none ↦ exited
        | some r ↦ done r
      ]

  unfoldable pub pointcloud_map_loader_startup : Process → Ending (NodeOptions D × Process)
  pointcloud_map_loader_startup w = elim (get_lf_autoware_home w) [
    | none ↦ exited
    | some home ↦ load_resolved (
        resolve_yaml_vars (path home pointcloud_map_loader_param)
          (map_replacements (get_default_map_path w)) w)
  ]

  -- The parameters of the substituted text, and the copy that holds it as the parameter file.
  abbrev pub resolved_outcome :
      Option (Options D) → Text → Process → Ending (NodeOptions D × Process)
  resolved_outcome none file w = exited
  resolved_outcome (some os) file w = done (
    record {
      overrides = last_named global_name os [];
      arguments = codes "--ros-args" ∷ codes "--params-file" ∷ file ∷ [];
    },
    w,
  )

  load_outcome :
      (file content : Text) (w : Process)
      → w.file file ≡ some content
      → load_resolved (done (file, w)) ≡ resolved_outcome (parse_yaml content) file w
  unfolding get_node_options_from_yaml load
  load_outcome file content w h = elim (Option-cases (parse_yaml content)) [
    | inl e ↦
        rw (h, load_resolved, get_node_options_from_yaml, load) (rw (e, resolved_outcome) refl)
    | inr (os, e) ↦
        rw (h, load_resolved, get_node_options_from_yaml, load)
          (rw (e, resolved_outcome) (rw (not_rewritten parse_yaml show_double file w) refl))
  ]

  proper : (map_path : Text) → All IsProper (map_replacements map_path)
  proper map_path = ((λ e. cc), ((λ e. cc), tt))

  -- The process after the copy has been written.
  abbrev replaced_process : Text → Process → Process
  replaced_process content w = written_copy (map_replacements (get_default_map_path w)) content w

  resolved :
      (file content : Text) (w : Process)
      → w.file file ≡ some content
      → resolve_yaml_vars file (map_replacements (get_default_map_path w)) w
        ≡ done (resolved_path w.pid w.resolved_counter, replaced_process content w)
  resolved file content w f =
      resolve_yaml_vars-written_copy file (map_replacements (get_default_map_path w)) content w
        (proper (get_default_map_path w)) f

  startup_replaced :
      (home content : Text) (w : Process)
      → w.env (codes "LF_AUTOWARE_HOME") ≡ some home
      → w.file (path home pointcloud_map_loader_param) ≡ some content
      → w.can_write (resolved_path w.pid w.resolved_counter) ≡ true
      → pointcloud_map_loader_startup w
        ≡ resolved_outcome
            (parse_yaml (substitute_each (map_replacements (get_default_map_path w)) content))
            (resolved_path w.pid w.resolved_counter)
            (replaced_process content w)
  unfolding pointcloud_map_loader_startup get_lf_autoware_home
  startup_replaced home content w h f c =
      rw (h, pointcloud_map_loader_startup)
        (ap load_resolved (resolved (path home pointcloud_map_loader_param) content w f)
          ∙ load_outcome (resolved_path w.pid w.resolved_counter)
              (substitute_each (map_replacements (get_default_map_path w)) content)
              (replaced_process content w)
              (file-write_file_self (resolved_path w.pid w.resolved_counter)
                (substitute_each (map_replacements (get_default_map_path w)) content)
                (record w { resolved_counter = w.resolved_counter + 1 }) c))

  -- The process after a copy of the text with the variables replaced has been written.
  abbrev pub resolved_process : Text → Process → Process
  resolved_process content w =
      written_copy (map_values (user_home (w.env (codes "HOME")))) content w

  -- With the home directory set, the parameter file there and the copy writable, the node gets the
  -- parameters that the parser finds in the text of the file with two launch variables replaced: the
  -- path of the map by "autoware_map/Town01/pointcloud_map.pcd" and that of its metadata by
  -- "autoware_map/Town01/pointcloud_map_metadata.yaml", both under HOME or, without it, "/root". As its
  -- parameter file it gets the copy that holds this text; if the text does not parse, the process
  -- exits. The replacement never runs out of rounds.
  pub pointcloud_map_loader_startup_lem :
      (home content : Text) (w : Process)
      → w.env (codes "LF_AUTOWARE_HOME") ≡ some home
      → w.file (
          home
          ++ codes
              "/src/launcher/autoware_launch/autoware_launch/config/map/pointcloud_map_loader.param.yaml")
        ≡ some content
      → w.can_write (resolved_path w.pid w.resolved_counter) ≡ true
      → pointcloud_map_loader_startup w
        ≡ resolved_outcome
            (parse_yaml (substitute_each (map_values (user_home (w.env (codes "HOME")))) content))
            (resolved_path w.pid w.resolved_counter)
            (resolved_process content w)
  pointcloud_map_loader_startup_lem home content w h f c =
      startup_replaced home content w h f c
      ∙ ap
          (λ values.
            resolved_outcome (parse_yaml (substitute_each values content))
              (resolved_path w.pid w.resolved_counter) (written_copy values content w))
          (map_replacements_lem w)
