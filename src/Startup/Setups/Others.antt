-- ===== src/Startup/Setups/Others.antt =====
-- What the startup reactions load and add: reactors outside AutowareFederated.lf.
use lf_autoware.Base.{List, [], ◌∷◌, codes, true, false}
use lf_autoware.Config.Yaml.{bool}
use lf_autoware.Startup.{Setup, from_yaml, from_yamls, parameter}
use lf_autoware.Startup.Paths.Common.{crop_box_filter_param, vehicle_info_param}
use lf_autoware.Startup.Paths.Others.{
  mirror_param, default_adapi_param, map_tf_generator_param, mrm_emergency_stop_operator_param,
  mrm_handler_param, pointcloud_concatenator_param, pointcloud_downsampling_param,
  pose_initializer_param, traffic_light_fine_detector_param,
}

abbrev pub crop_box_filter_mirror : {D : Type 0} → Setup D
crop_box_filter_mirror = record {
  loading = from_yamls (crop_box_filter_param ∷ mirror_param ∷ vehicle_info_param ∷ []);
  extra = [];
}

abbrev pub default_adapi : {D : Type 0} → Setup D
default_adapi = record { loading = from_yaml default_adapi_param; extra = [] }

abbrev pub map_tf_generator : {D : Type 0} → Setup D
map_tf_generator = record { loading = from_yaml map_tf_generator_param; extra = [] }

abbrev pub mrm_emergency_stop_operator : {D : Type 0} → Setup D
mrm_emergency_stop_operator = record {
  loading = from_yaml mrm_emergency_stop_operator_param;
  extra = [];
}

abbrev pub mrm_handler : {D : Type 0} → Setup D
mrm_handler = record { loading = from_yaml mrm_handler_param; extra = [] }

abbrev pub pointcloud_concatenator : {D : Type 0} → Setup D
pointcloud_concatenator = record { loading = from_yaml pointcloud_concatenator_param; extra = [] }

abbrev pub pointcloud_downsampling : {D : Type 0} → Setup D
pointcloud_downsampling = record { loading = from_yaml pointcloud_downsampling_param; extra = [] }

abbrev pub pose_initializer : {D : Type 0} → Setup D
pose_initializer = record {
  loading = from_yaml pose_initializer_param;
  extra =
      parameter (codes "gnss_enabled") (bool false)
      ∷ parameter (codes "yabloc_enabled") (bool false)
      ∷ parameter (codes "ndt_enabled") (bool true)
      ∷ parameter (codes "ekf_enabled") (bool true)
      ∷ [];
}

abbrev pub traffic_light_fine_detector : {D : Type 0} → Setup D
traffic_light_fine_detector = record {
  loading = from_yaml traffic_light_fine_detector_param;
  extra = [];
}

abbrev pub others_setups : {D : Type 0} → List (Setup D)
others_setups =
    crop_box_filter_mirror ∷ default_adapi ∷ map_tf_generator ∷ mrm_emergency_stop_operator
    ∷ mrm_handler ∷ pointcloud_concatenator ∷ pointcloud_downsampling ∷ pose_initializer
    ∷ traffic_light_fine_detector ∷ []
