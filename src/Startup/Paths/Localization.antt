-- ===== src/Startup/Paths/Localization.antt =====
-- Parameter paths of lf-src/lf-include/constants.hpp: localization.
use lf_autoware.Base.{◌++◌, Text, codes}
use lf_autoware.Startup.Paths.Common.{launcher_config_path}

abbrev pub ndt_scan_matcher_param : Text
ndt_scan_matcher_param =
    launcher_config_path ++ codes "/localization/ndt_scan_matcher/ndt_scan_matcher.param.yaml"

abbrev pub gyro_odometer_param : Text
gyro_odometer_param =
    codes
      "src/core/autoware_core/localization/autoware_gyro_odometer/config/gyro_odometer.param.yaml"

abbrev pub ekf_localizer_param : Text
ekf_localizer_param = launcher_config_path ++ codes "/localization/ekf_localizer.param.yaml"

abbrev pub localization_error_monitor_param : Text
localization_error_monitor_param =
    launcher_config_path ++ codes "/localization/localization_error_monitor.param.yaml"

abbrev pub stop_filter_param : Text
stop_filter_param =
    codes "src/core/autoware_core/localization/autoware_stop_filter/config/stop_filter.param.yaml"

abbrev pub pose_instability_detector_param : Text
pose_instability_detector_param =
    codes
      "src/universe/autoware_universe/localization/autoware_pose_instability_detector/config/pose_instability_detector.param.yaml"
