-- ===== src/Startup/Setups/Planning2.antt =====
-- What the startup reactions load and add: the reactors that AutowareFederated.lf lists under Planning.
use lf_autoware.Base.{List, [], ◌∷◌, codes, false}
use lf_autoware.Config.Yaml.{bool, text}
use lf_autoware.Startup.{Setup, from_yamls, parameter}
use lf_autoware.Startup.Paths.Common.{vehicle_info_param}
use lf_autoware.Startup.Paths.Planning.{
  velocity_smoother_common_param, planning_nearest_search_param, velocity_smoother_param,
  velocity_smoother_algorithm_param,
}

abbrev pub velocity_smoother : {D : Type 0} → Setup D
velocity_smoother = record {
  loading = from_yamls (
      velocity_smoother_common_param ∷ planning_nearest_search_param ∷ velocity_smoother_param
      ∷ velocity_smoother_algorithm_param ∷ vehicle_info_param ∷ []);
  extra =
      parameter (codes "algorithm_type") (text (codes "Analytical"))
      ∷ parameter (codes "publish_debug_trajs") (bool false)
      ∷ [];
}

abbrev pub planning2_setups : {D : Type 0} → List (Setup D)
planning2_setups = velocity_smoother ∷ []
