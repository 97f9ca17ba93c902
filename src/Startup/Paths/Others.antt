-- ===== src/Startup/Paths/Others.antt =====
-- Parameter paths of lf-src/lf-include/constants.hpp: reactors outside the federation.
use lf_autoware.Base.{◌++◌, Text, codes}
use lf_autoware.Startup.Paths.Common.{launcher_config_path}

abbrev pub mirror_param : Text
mirror_param =
    codes
      "src/launcher/autoware_launch/sensor_kit/carla_sensor_kit_launch/carla_sensor_kit_launch/config/mirror.param.yaml"

abbrev pub traffic_light_fine_detector_param : Text
traffic_light_fine_detector_param =
    launcher_config_path
    ++ codes
        "/perception/traffic_light_recognition/traffic_light_fine_detector/traffic_light_fine_detector.param.yaml"

abbrev pub pointcloud_downsampling_param : Text
pointcloud_downsampling_param =
    launcher_config_path
    ++ codes "/localization/ndt_scan_matcher/pointcloud_preprocessor/voxel_grid_filter.param.yaml"

abbrev pub pose_initializer_param : Text
pose_initializer_param =
    codes
      "src/core/autoware_core/localization/autoware_pose_initializer/config/pose_initializer.param.yaml"

abbrev pub mrm_handler_param : Text
mrm_handler_param = launcher_config_path ++ codes "/system/mrm_handler/mrm_handler.param.yaml"

abbrev pub mrm_emergency_stop_operator_param : Text
mrm_emergency_stop_operator_param =
    launcher_config_path
    ++ codes "/system/mrm_emergency_stop_operator/mrm_emergency_stop_operator.param.yaml"

abbrev pub default_adapi_param : Text
default_adapi_param =
    codes
      "src/universe/autoware_universe/system/autoware_default_adapi_universe/config/default_adapi.param.yaml"

abbrev pub pointcloud_concatenator_param : Text
pointcloud_concatenator_param =
    codes
      "src/universe/autoware_universe/sensing/autoware_pointcloud_preprocessor/config/concatenate_and_time_sync_node.param.yaml"

abbrev pub map_tf_generator_param : Text
map_tf_generator_param =
    codes
      "src/universe/autoware_universe/map/autoware_map_tf_generator/config/map_tf_generator.param.yaml"
