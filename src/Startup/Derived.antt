-- ===== src/Startup/Derived.antt =====
-- Startup reactions that compute some of the parameters they add, from the home directories or in a
-- loop: those of diagnostic_aggregator, map_projection_loader, traffic_light_classifier and
-- multi_object_tracker (lf-src/*/*_main.lf).
use mathlib.Core.Option
use lf_autoware.Base.{
  ℕ, zero, suc, ltb, false, if◌then◌else◌, ◌≡◌, refl, Option, none, some, List, [], ◌∷◌, ◌++◌, Text,
  codes, to_string, Option-cases, inl, inr,
}
use lf_autoware.Config.Yaml.{Parameter, Options, bool, text}
use lf_autoware.Config.Process.{Process}
use lf_autoware.Config.Options.{NodeOptions, load, get_lf_autoware_home}
use lf_autoware.Config.Options.Yamls.{IsUnique}
use lf_autoware.Startup.{from_yaml, from_yamls, Setup, parameter, path, load_options, push_back}
use lf_autoware.Startup.Centerpoint.{get_default_data_path}
use lf_autoware.Config.Options.Plan.{Loader}
use lf_autoware.Startup.Expected.{expected_from, loaded}
use lf_autoware.Startup.MapLoader.{get_default_map_path}
use lf_autoware.Startup.Paths.Further.{
  diagnostic_aggregator_param, diagnostic_aggregator_graph_param, map_projection_loader_param,
  traffic_light_classifier_param, multi_object_tracker_param,
  multi_object_tracker_data_association_param, multi_object_tracker_input_channels_param,
}

-- What a reaction loads and adds, given `home` and the process.
abbrev pub Derived : Type 0 → Type 0
Derived D = Text → Process → Setup D

-- std::string("detection") + (i < 10 ? "0" : "") + std::to_string(i)
abbrev pub detection_id : ℕ → Text
detection_id i = codes "detection" ++ ((if ltb i 10 then codes "0" else []) ++ to_string i)

module _ {D : Type 0} where
  abbrev pub diagnostic_aggregator : Derived D
  diagnostic_aggregator home w = record {
    loading = from_yaml diagnostic_aggregator_param;
    extra =
        parameter (codes "graph_file") (text (path home diagnostic_aggregator_graph_param)) ∷ [];
  }

  abbrev pub map_projection_loader : Derived D
  map_projection_loader home w = record {
    loading = from_yaml map_projection_loader_param;
    extra =
        parameter (codes "lanelet2_map_path")
          (text (get_default_map_path w ++ codes "/lanelet2_map.osm"))
        ∷ [];
  }

  abbrev pub traffic_light_classifier : Derived D
  traffic_light_classifier home w = record {
    loading = from_yaml traffic_light_classifier_param;
    extra =
        parameter (codes "label_path")
          (text (get_default_data_path w ++ codes "/traffic_light_classifier/lamp_labels.txt"))
        ∷ parameter (codes "model_path") (
            text (
              get_default_data_path w
              ++ codes
                  "/traffic_light_classifier/traffic_light_classifier_mobilenetv2_batch_6.onnx"))
        ∷ [];
  }

  -- The body of the loop over the channels.
  abbrev pub no_channel : ℕ → List (Parameter D)
  no_channel i =
      parameter (codes "input/" ++ (detection_id i ++ codes "/channel")) (text (codes "none"))
      ∷ parameter (codes "input/" ++ (detection_id i ++ codes "/objects")) (text (codes "none"))
      ∷ []

  -- The loop from `i`, for `n` rounds.
  abbrev pub no_channels : ℕ → ℕ → List (Parameter D)
  no_channels zero i = []
  no_channels (suc n) i = no_channel i ++ no_channels n (suc i)

  -- The loop runs from 2 to 12.
  abbrev pub multi_object_tracker : Derived D
  multi_object_tracker home w = record {
    loading = from_yamls (
        multi_object_tracker_param ∷ multi_object_tracker_data_association_param
        ∷ multi_object_tracker_input_channels_param ∷ []);
    extra =
        parameter (codes "publish_merged_objects") (bool false)
        ∷ parameter (codes "input/detection01/channel") (text (codes "lidar_centerpoint"))
        ∷ parameter (codes "input/detection01/objects")
            (text (codes "/perception/object_recognition/detection/centerpoint/objects"))
        ∷ no_channels 11 2;
  }

  -- What the reaction gives its node: nothing without a home.
  abbrev pub derived_from : Loader D → Option Text → Derived D → Process → Option (NodeOptions D)
  derived_from ld none f w = none
  derived_from ld (some home) f w = expected_from ld home (f home w).loading (f home w).extra

module _ {D : Type 0} (parse_yaml : Text → Option (Options D)) (show_double : D → Text) where
  unfoldable pub startup_with : Derived D → Process → Option (NodeOptions D × Process)
  startup_with f w = elim (get_lf_autoware_home w) [
    | none ↦ none
    | some home ↦
        push_back (f home w).extra (load_options parse_yaml show_double home (f home w).loading w)
  ]

  -- If a file that parses has each node name once, a startup reaction that computes what it loads and
  -- adds from the home directory and the environment leaves the process as it is, and gives its node
  -- the global parameters of the files that parse and then the computed ones; it gives nothing without
  -- the home directory, or if its only file does not parse.
  pub startup_with-eq-derived :
      (f : Derived D) (w : Process)
      → ((file : Text) (os : Options D)
          → load parse_yaml show_double file w ≡ some os
          → IsUnique os)
      → startup_with f w
        ≡ Option.map
            (λ o. (o, w))
            (derived_from
              (λ file. load parse_yaml show_double file w)
              (w.env (codes "LF_AUTOWARE_HOME"))
              f
              w)
  unfolding startup_with get_lf_autoware_home
  startup_with-eq-derived f w u = elim (Option-cases (w.env (codes "LF_AUTOWARE_HOME"))) [
    | inl e ↦ rw (e, startup_with) refl
    | inr (home, e) ↦
        rw (e, startup_with)
          (loaded parse_yaml show_double home (f home w).loading (f home w).extra w u)
  ]
