-- ===== src/Startup/Centerpoint.antt =====
-- The startup reaction of `lidar_centerpoint` (lf-src/lidar_centerpoint/lidar_centerpoint_main.lf),
-- which replaces launch variables in one of four parameter files before it loads them all.
use lf_autoware.Base.{
  ◌+◌, ◌≡◌, ap, ◌∙◌, true, Option, none, some, List, [], ◌∷◌, ◌++◌, All, Text, codes, append-nil,
  append_assoc, refl, Option-cases, inl, inr,
}
use lf_autoware.Config.Yaml.{Options}
use lf_autoware.Config.Process.{Process, resolved_path, file-write_file_self}
use lf_autoware.Config.Options.{
  NodeOptions, load, get_node_options_from_yamls, get_lf_autoware_home,
}
use lf_autoware.Config.Substitute.Loop.{substitute_each, IsProper}
use lf_autoware.Config.Resolve.{
  Ending, done, exited, out_of_rounds, resolve_yaml_vars, written_copy,
  resolve_yaml_vars-written_copy,
}
use mathlib.Core.Path.{subst}
use lf_autoware.Startup.{path}
use lf_autoware.Startup.MapLoader.{user_home}
use lf_autoware.Startup.Expected.{options_of, loader, global_configs, add_yamls_global}
use lf_autoware.Startup.Paths.Common.{launcher_config_path}

abbrev pub lidar_centerpoint_param : Text
lidar_centerpoint_param =
    launcher_config_path
    ++ codes "/perception/object_recognition/detection/lidar_model/centerpoint.param.yaml"

abbrev pub lidar_centerpoint_common_param : Text
lidar_centerpoint_common_param =
    launcher_config_path
    ++ codes "/perception/object_recognition/detection/lidar_model/centerpoint_common.param.yaml"

abbrev pub lidar_centerpoint_ml_package_param : Text
lidar_centerpoint_ml_package_param =
    codes "lidar_centerpoint/centerpoint_tiny_ml_package.param.yaml"

abbrev pub lidar_centerpoint_class_remapper_param : Text
lidar_centerpoint_class_remapper_param =
    codes "lidar_centerpoint/detection_class_remapper.param.yaml"

-- std::string(h ? h : "/root") + "/autoware_data"
unfoldable pub get_default_data_path : Process → Text
get_default_data_path w =
    elim (w.env (codes "HOME")) [ none ↦ codes "/root" | some h ↦ h ] ++ codes "/autoware_data"

abbrev pub model_replacements : Text → List (Text × Text)
model_replacements data_path =
    (codes "$(var model_path)", data_path ++ codes "/lidar_centerpoint")
    ∷ (codes "$(var model_name)", codes "centerpoint_tiny")
    ∷ []

-- The four files, the first of which is the resolved one.
abbrev pub centerpoint_files : Text → Text → Text → List Text
centerpoint_files home data_path resolved =
    resolved
    ∷ path home lidar_centerpoint_common_param
    ∷ path data_path lidar_centerpoint_ml_package_param
    ∷ path data_path lidar_centerpoint_class_remapper_param
    ∷ []

-- What the launch variables stand for, under the directory of the user.
abbrev pub model_values : Text → List (Text × Text)
model_values user =
    (codes "$(var model_path)", user ++ codes "/autoware_data/lidar_centerpoint")
    ∷ (codes "$(var model_name)", codes "centerpoint_tiny")
    ∷ []

-- The files of the node, of which `copy` is the one with the variables replaced.
abbrev pub model_files : Text → Text → Text → List Text
model_files home user copy =
    copy
    ∷ (home
        ++ codes
            "/src/launcher/autoware_launch/autoware_launch/config/perception/object_recognition/detection/lidar_model/centerpoint_common.param.yaml")
    ∷ (user ++ codes "/autoware_data/lidar_centerpoint/centerpoint_tiny_ml_package.param.yaml")
    ∷ (user ++ codes "/autoware_data/lidar_centerpoint/detection_class_remapper.param.yaml")
    ∷ []

get_default_data_path_lem :
    (w : Process)
    → get_default_data_path w ≡ user_home (w.env (codes "HOME")) ++ codes "/autoware_data"
unfolding get_default_data_path
get_default_data_path_lem w = elim (Option-cases (w.env (codes "HOME"))) [
  | inl e ↦ rw (e, get_default_data_path, user_home) refl
  | inr (h, e) ↦ rw (e, get_default_data_path, user_home) refl
]

model_replacements_lem :
    (w : Process)
    → model_replacements (get_default_data_path w) ≡ model_values (user_home (w.env (codes "HOME")))
model_replacements_lem w =
    ap model_replacements (get_default_data_path_lem w)
    ∙ ap
        (λ path.
          (codes "$(var model_path)", path)
          ∷ (codes "$(var model_name)", codes "centerpoint_tiny")
          ∷ [])
        (append_assoc (user_home (w.env (codes "HOME"))) (codes "/autoware_data")
          (codes "/lidar_centerpoint"))

centerpoint_files_lem :
    (home copy : Text) (w : Process)
    → centerpoint_files home (get_default_data_path w) copy
      ≡ model_files home (user_home (w.env (codes "HOME"))) copy
centerpoint_files_lem home copy w =
    let user = user_home (w.env (codes "HOME")) in
    ap (λ data_path. centerpoint_files home data_path copy) (get_default_data_path_lem w)
    ∙ ap
        (λ file.
          copy
          ∷ path home lidar_centerpoint_common_param
          ∷ file
          ∷ path (user ++ codes "/autoware_data") lidar_centerpoint_class_remapper_param
          ∷ [])
        (append_assoc user (codes "/autoware_data")
          (codes "/" ++ lidar_centerpoint_ml_package_param))
    ∙ ap
        (λ file.
          copy
          ∷ path home lidar_centerpoint_common_param
          ∷ (user
              ++ codes "/autoware_data/lidar_centerpoint/centerpoint_tiny_ml_package.param.yaml")
          ∷ file
          ∷ [])
        (append_assoc user (codes "/autoware_data")
          (codes "/" ++ lidar_centerpoint_class_remapper_param))

-- The process once the copy of the first file has been written.
abbrev replaced_process : Text → Process → Process
replaced_process content w = written_copy (model_replacements (get_default_data_path w)) content w

abbrev pub model_process : Text → Process → Process
model_process content w = written_copy (model_values (user_home (w.env (codes "HOME")))) content w

module _ {D : Type 0} (parse_yaml : Text → Option (Options D)) (show_double : D → Text) where
  abbrev pub load_with_resolved :
      Text → Text → Ending (Text × Process) → Ending (NodeOptions D × Process)
  load_with_resolved home data_path exited = exited
  load_with_resolved home data_path out_of_rounds = out_of_rounds
  load_with_resolved home data_path (done (file, w)) = done (
      get_node_options_from_yamls parse_yaml show_double
        (global_configs parse_yaml show_double (centerpoint_files home data_path file)) w)

  unfoldable pub lidar_centerpoint_startup : Process → Ending (NodeOptions D × Process)
  lidar_centerpoint_startup w = elim (get_lf_autoware_home w) [
    | none ↦ exited
    | some home ↦ load_with_resolved home (get_default_data_path w) (
        resolve_yaml_vars (path home lidar_centerpoint_param)
          (model_replacements (get_default_data_path w)) w)
  ]

  proper : (data_path : Text) → All IsProper (model_replacements data_path)
  proper data_path = ((λ e. cc), ((λ e. cc), tt))

  load-copy :
      (file content : Text) (w : Process)
      → w.file file ≡ some content
      → load parse_yaml show_double file w ≡ parse_yaml content
  unfolding load
  load-copy file content w e =
      ap (λ (o : Option Text). elim o [ none ↦ none | some c ↦ parse_yaml c ]) e

  loaded :
      (files : List Text) (w : Process)
      → get_node_options_from_yamls parse_yaml show_double
          (global_configs parse_yaml show_double files)
          w
        ≡ (options_of (loader parse_yaml show_double w) files [], w)
  unfolding get_node_options_from_yamls
  loaded files w = rw append-nil (add_yamls_global parse_yaml show_double files _ w)

  startup_replaced :
      (home content : Text) (w : Process)
      → w.env (codes "LF_AUTOWARE_HOME") ≡ some home
      → w.file (path home lidar_centerpoint_param) ≡ some content
      → w.can_write (resolved_path w.pid w.resolved_counter) ≡ true
      → (lidar_centerpoint_startup w
          ≡ done (
            options_of
                (loader parse_yaml show_double (replaced_process content w))
                (centerpoint_files home
                  (get_default_data_path w)
                  (resolved_path w.pid w.resolved_counter))
                [],
            replaced_process content w,
          ))
        × (load parse_yaml show_double
              (resolved_path w.pid w.resolved_counter)
              (replaced_process content w)
            ≡ parse_yaml (substitute_each (model_replacements (get_default_data_path w)) content))
  unfolding lidar_centerpoint_startup get_lf_autoware_home
  startup_replaced home content w h f c =
      let copy = resolved_path w.pid w.resolved_counter in
      let replacements = model_replacements (get_default_data_path w) in
      (
        rw (h, lidar_centerpoint_startup)
            (ap (load_with_resolved home (get_default_data_path w)) (
                resolve_yaml_vars-written_copy (path home lidar_centerpoint_param) replacements
                  content w (proper (get_default_data_path w)) f)
              ∙ ap done (
                  loaded (centerpoint_files home (get_default_data_path w) copy)
                    (replaced_process content w))),
        load-copy copy (substitute_each replacements content) (replaced_process content w) (
            file-write_file_self copy (substitute_each replacements content)
              (record w { resolved_counter = w.resolved_counter + 1 }) c),
      )

  -- With the home directory set, the parameter file of the model there and its copy writable, the node
  -- gets the global parameters of those of four files that parse, in order, and these files as
  -- arguments: the copy, centerpoint_common.param.yaml, and from "autoware_data/lidar_centerpoint" under
  -- HOME, or without it "/root", the files for the package of the tiny model and for the class remapper.
  -- What the parser finds in the copy is what it makes of the text of the parameter file with the model
  -- path replaced by that directory and the model name by "centerpoint_tiny".
  pub lidar_centerpoint_startup_lem :
      (home content : Text) (w : Process)
      → w.env (codes "LF_AUTOWARE_HOME") ≡ some home
      → w.file (
          home
          ++ codes
              "/src/launcher/autoware_launch/autoware_launch/config/perception/object_recognition/detection/lidar_model/centerpoint.param.yaml")
        ≡ some content
      → w.can_write (resolved_path w.pid w.resolved_counter) ≡ true
      → (lidar_centerpoint_startup w
          ≡ done (
            options_of
                (loader parse_yaml show_double (model_process content w))
                (model_files home
                  (user_home (w.env (codes "HOME")))
                  (resolved_path w.pid w.resolved_counter))
                [],
            model_process content w,
          ))
        × (load parse_yaml show_double
              (resolved_path w.pid w.resolved_counter)
              (model_process content w)
            ≡ parse_yaml
                (substitute_each (model_values (user_home (w.env (codes "HOME")))) content))
  lidar_centerpoint_startup_lem home content w h f c =
      let copy = resolved_path w.pid w.resolved_counter in
      subst
        (λ values.
          (lidar_centerpoint_startup w
            ≡ done (
              options_of (loader parse_yaml show_double (written_copy values content w))
                  (model_files home (user_home (w.env (codes "HOME"))) copy) [],
              written_copy values content w,
            ))
          × (load parse_yaml show_double copy (written_copy values content w)
              ≡ parse_yaml (substitute_each values content)))
        (model_replacements_lem w)
        (subst
          (λ files.
            (lidar_centerpoint_startup w
              ≡ done (
                options_of (loader parse_yaml show_double (replaced_process content w)) files [],
                replaced_process content w,
              ))
            × (load parse_yaml show_double copy (replaced_process content w)
                ≡ parse_yaml
                    (substitute_each (model_replacements (get_default_data_path w)) content)))
          (centerpoint_files_lem home copy w) (startup_replaced home content w h f c))
