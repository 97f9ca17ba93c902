-- ===== src/Startup/Setups/Localization.antt =====
-- What the startup reactions load and add: the reactors that AutowareFederated.lf lists under Localization.
use lf_autoware.Base.{List, [], ◌∷◌}
use lf_autoware.Startup.{Setup, from_yaml}
use lf_autoware.Startup.Paths.Localization.{
  ekf_localizer_param, gyro_odometer_param, localization_error_monitor_param,
  ndt_scan_matcher_param, pose_instability_detector_param, stop_filter_param,
}

abbrev pub ekf_localizer : {D : Type 0} → Setup D
ekf_localizer = record { loading = from_yaml ekf_localizer_param; extra = [] }

abbrev pub gyro_odometer : {D : Type 0} → Setup D
gyro_odometer = record { loading = from_yaml gyro_odometer_param; extra = [] }

abbrev pub localization_error_monitor : {D : Type 0} → Setup D
localization_error_monitor = record {
  loading = from_yaml localization_error_monitor_param;
  extra = [];
}

abbrev pub ndt_scan_matcher : {D : Type 0} → Setup D
ndt_scan_matcher = record { loading = from_yaml ndt_scan_matcher_param; extra = [] }

abbrev pub pose_instability_detector : {D : Type 0} → Setup D
pose_instability_detector = record {
  loading = from_yaml pose_instability_detector_param;
  extra = [];
}

abbrev pub stop_filter : {D : Type 0} → Setup D
stop_filter = record { loading = from_yaml stop_filter_param; extra = [] }

abbrev pub localization_setups : {D : Type 0} → List (Setup D)
localization_setups =
    ekf_localizer ∷ gyro_odometer ∷ localization_error_monitor ∷ ndt_scan_matcher
    ∷ pose_instability_detector ∷ stop_filter ∷ []
