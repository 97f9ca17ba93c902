-- ===== src/Startup/Setups/Perception2.antt =====
-- What the startup reactions load and add: the reactors that AutowareFederated.lf lists under Perception.
use lf_autoware.Base.{List, [], ◌∷◌}
use lf_autoware.Startup.{Setup, from_yaml}
use lf_autoware.Startup.Paths.Perception.{
  traffic_light_arbiter_param, traffic_light_map_based_detector_param,
  traffic_light_occlusion_predictor_param,
}

abbrev pub traffic_light_arbiter : {D : Type 0} → Setup D
traffic_light_arbiter = record { loading = from_yaml traffic_light_arbiter_param; extra = [] }

abbrev pub traffic_light_map_based_detector : {D : Type 0} → Setup D
traffic_light_map_based_detector = record {
  loading = from_yaml traffic_light_map_based_detector_param;
  extra = [];
}

abbrev pub traffic_light_occlusion_predictor : {D : Type 0} → Setup D
traffic_light_occlusion_predictor = record {
  loading = from_yaml traffic_light_occlusion_predictor_param;
  extra = [];
}

abbrev pub perception2_setups : {D : Type 0} → List (Setup D)
perception2_setups =
    traffic_light_arbiter ∷ traffic_light_map_based_detector ∷ traffic_light_occlusion_predictor
    ∷ []
