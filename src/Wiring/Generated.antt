-- ===== src/Wiring/Generated.antt =====
-- The federates that the code generator made of AutowareFederated.lf, one for each file
-- lf-src/fed-gen/AutowareFederated/src/federate__<name>.lf.
use lf_autoware.Base.{ℕ, String, List, [], ◌∷◌}
use lf_autoware.Wiring.{Reactor, reactor, create}
use lf_autoware.Wiring.Ports.{
  mission_planner, behavior_path_planner, freespace_planner, costmap_generator, trajectory_follower,
  shift_decider,
}
use lf_autoware.Wiring.Leaves.{
  crop_box_filter, imu_corrector, vehicle_velocity_converter, ndt_scan_matcher, gyro_odometer,
  ekf_localizer, pointcloud_map_loader, lanelet2_map_loader, ground_segmentation, lidar_centerpoint,
  euclidean_cluster, pointcloud_map_filter, detection_by_tracker, object_validator, object_filter,
  camera_lidar_fusion, multi_object_tracker, map_based_prediction, occupancy_grid_map,
  traffic_light_map_based_detector, traffic_light_classifier, traffic_light_arbiter,
  traffic_light_occlusion_predictor, crosswalk_traffic_light_estimator, behavior_velocity_planner,
  path_smoother, path_optimizer, motion_velocity_planner, surround_obstacle_checker,
  planning_validator, external_velocity_limit_selector, operation_mode_transition_manager,
  lane_departure_checker, control_validator, autonomous_emergency_braking, collision_detector,
}
use lf_autoware.Wiring.Network.{Federate}
use lf_autoware.Wiring.Communicating.{ss_main, vs_main, vcg_main, bridge_main}

-- A federate with nothing to send or receive.
abbrev alone : ℕ → String → Reactor → Federate
alone id i class = record {
  federate_id = id;
  main = reactor "" [] (create ((i, class) ∷ [])) [];
  sends = [];
}

abbrev pub cbf_main : Federate
cbf_main = alone 0 "cbf" crop_box_filter

abbrev pub imu_main : Federate
imu_main = alone 1 "imu" imu_corrector

abbrev pub vvc_main : Federate
vvc_main = alone 2 "vvc" vehicle_velocity_converter

abbrev pub ndt_main : Federate
ndt_main = alone 3 "ndt" ndt_scan_matcher

abbrev pub gyro_main : Federate
gyro_main = alone 4 "gyro" gyro_odometer

abbrev pub ekf_main : Federate
ekf_main = alone 5 "ekf" ekf_localizer

abbrev pub pcm_main : Federate
pcm_main = alone 6 "pcm" pointcloud_map_loader

abbrev pub l2m_main : Federate
l2m_main = alone 7 "l2m" lanelet2_map_loader

abbrev pub gs_main : Federate
gs_main = alone 8 "gs" ground_segmentation

abbrev pub lcp_main : Federate
lcp_main = alone 9 "lcp" lidar_centerpoint

abbrev pub ec_main : Federate
ec_main = alone 10 "ec" euclidean_cluster

abbrev pub pmf_main : Federate
pmf_main = alone 11 "pmf" pointcloud_map_filter

abbrev pub dbt_main : Federate
dbt_main = alone 12 "dbt" detection_by_tracker

abbrev pub ov_main : Federate
ov_main = alone 13 "ov" object_validator

abbrev pub of_main : Federate
of_main = alone 14 "of" object_filter

abbrev pub clf_main : Federate
clf_main = alone 15 "clf" camera_lidar_fusion

abbrev pub mot_main : Federate
mot_main = alone 16 "mot" multi_object_tracker

abbrev pub mbp_main : Federate
mbp_main = alone 17 "mbp" map_based_prediction

abbrev pub ogm_main : Federate
ogm_main = alone 18 "ogm" occupancy_grid_map

abbrev pub tlmbd_main : Federate
tlmbd_main = alone 19 "tlmbd" traffic_light_map_based_detector

abbrev pub tlc_main : Federate
tlc_main = alone 20 "tlc" traffic_light_classifier

abbrev pub tla_main : Federate
tla_main = alone 21 "tla" traffic_light_arbiter

abbrev pub tlop_main : Federate
tlop_main = alone 22 "tlop" traffic_light_occlusion_predictor

abbrev pub ctle_main : Federate
ctle_main = alone 23 "ctle" crosswalk_traffic_light_estimator

abbrev pub mp_main : Federate
mp_main = alone 24 "mp" mission_planner

abbrev pub bpp_main : Federate
bpp_main = alone 25 "bpp" behavior_path_planner

abbrev pub bvp_main : Federate
bvp_main = alone 26 "bvp" behavior_velocity_planner

abbrev pub ps_main : Federate
ps_main = alone 27 "ps" path_smoother

abbrev pub po_main : Federate
po_main = alone 28 "po" path_optimizer

abbrev pub mvp_main : Federate
mvp_main = alone 29 "mvp" motion_velocity_planner

abbrev pub soc_main : Federate
soc_main = alone 30 "soc" surround_obstacle_checker

abbrev pub fp_main : Federate
fp_main = alone 33 "fp" freespace_planner

abbrev pub cg_main : Federate
cg_main = alone 34 "cg" costmap_generator

abbrev pub pv_main : Federate
pv_main = alone 35 "pv" planning_validator

abbrev pub evls_main : Federate
evls_main = alone 36 "evls" external_velocity_limit_selector

abbrev pub tf_main : Federate
tf_main = alone 37 "tf" trajectory_follower

abbrev pub sd_main : Federate
sd_main = alone 38 "sd" shift_decider

abbrev pub omtm_main : Federate
omtm_main = alone 40 "omtm" operation_mode_transition_manager

abbrev pub ldc_main : Federate
ldc_main = alone 41 "ldc" lane_departure_checker

abbrev pub cv_main : Federate
cv_main = alone 42 "cv" control_validator

abbrev pub aeb_main : Federate
aeb_main = alone 43 "aeb" autonomous_emergency_braking

abbrev pub cd_main : Federate
cd_main = alone 44 "cd" collision_detector

abbrev pub generated : List Federate
generated =
    cbf_main ∷ imu_main ∷ vvc_main ∷ ndt_main ∷ gyro_main ∷ ekf_main ∷ pcm_main ∷ l2m_main ∷ gs_main
    ∷ lcp_main ∷ ec_main ∷ pmf_main ∷ dbt_main ∷ ov_main ∷ of_main ∷ clf_main ∷ mot_main ∷ mbp_main
    ∷ ogm_main ∷ tlmbd_main ∷ tlc_main ∷ tla_main ∷ tlop_main ∷ ctle_main ∷ mp_main ∷ bpp_main
    ∷ bvp_main ∷ ps_main ∷ po_main ∷ mvp_main ∷ soc_main ∷ ss_main ∷ vs_main ∷ fp_main ∷ cg_main
    ∷ pv_main ∷ evls_main ∷ tf_main ∷ sd_main ∷ vcg_main ∷ omtm_main ∷ ldc_main ∷ cv_main ∷ aeb_main
    ∷ cd_main ∷ bridge_main ∷ []
