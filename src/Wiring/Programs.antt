-- ===== src/Wiring/Programs.antt =====
-- The three programs: lf-src/AutowareFederated.lf, AutowareUniverse.lf and AutowareMono.lf.
use lf_autoware.Base.{List, [], ◌∷◌}
use lf_autoware.Wiring.{Reactor, reactor, create}
use lf_autoware.Wiring.Ports.{
  mission_planner, behavior_path_planner, scenario_selector, velocity_smoother, freespace_planner,
  costmap_generator, trajectory_follower, shift_decider, vehicle_cmd_gate, bridge_interface,
}
use lf_autoware.Wiring.Leaves.{
  crop_box_filter, imu_corrector, vehicle_velocity_converter, random_downsample_filter,
  passthrough_filter, voxel_grid_outlier_filter, approximate_downsample_filter, image_decompressor,
  ndt_scan_matcher, gyro_odometer, ekf_localizer, localization_error_monitor,
  pose_instability_detector, stop_filter, pointcloud_map_loader, lanelet2_map_loader,
  ground_segmentation, lidar_centerpoint, euclidean_cluster, pointcloud_map_filter,
  detection_by_tracker, object_validator, object_filter, camera_lidar_fusion, multi_object_tracker,
  map_based_prediction, occupancy_grid_map, traffic_light_map_based_detector,
  traffic_light_classifier, traffic_light_arbiter, traffic_light_occlusion_predictor,
  crosswalk_traffic_light_estimator, tensorrt_yolox, traffic_light_selector,
  traffic_light_category_merger, simple_object_merger, object_range_splitter,
  occupancy_grid_map_outlier_filter, behavior_velocity_planner, path_smoother, path_optimizer,
  motion_velocity_planner, surround_obstacle_checker, planning_validator,
  external_velocity_limit_selector, path_generator, path_sampler, operation_mode_transition_manager,
  lane_departure_checker, control_validator, autonomous_emergency_braking, collision_detector,
  obstacle_collision_checker, predicted_path_checker, external_cmd_selector,
  mrm_comfortable_stop_operator, hazard_status_converter, duplicated_node_checker,
  processing_time_checker, pipeline_latency_monitor, component_state_monitor, carla_interface,
}
use lf_autoware.Wiring.Packages.{
  inside, across, port_of, sensing, localization, perception, package_map, planning, control,
}

abbrev pub autoware_federated : Reactor
autoware_federated =
    reactor "AutowareFederated" []
      (create (
        ("cbf", crop_box_filter)
        ∷ ("imu", imu_corrector)
        ∷ ("vvc", vehicle_velocity_converter)
        ∷ ("rdf", random_downsample_filter)
        ∷ ("ptf", passthrough_filter)
        ∷ ("vgof", voxel_grid_outlier_filter)
        ∷ ("adf", approximate_downsample_filter)
        ∷ ("idec", image_decompressor)
        ∷ ("ndt", ndt_scan_matcher)
        ∷ ("gyro", gyro_odometer)
        ∷ ("ekf", ekf_localizer)
        ∷ ("lem", localization_error_monitor)
        ∷ ("pid", pose_instability_detector)
        ∷ ("sf", stop_filter)
        ∷ ("pcm", pointcloud_map_loader)
        ∷ ("l2m", lanelet2_map_loader)
        ∷ ("gs", ground_segmentation)
        ∷ ("lcp", lidar_centerpoint)
        ∷ ("ec", euclidean_cluster)
        ∷ ("pmf", pointcloud_map_filter)
        ∷ ("dbt", detection_by_tracker)
        ∷ ("ov", object_validator)
        ∷ ("of", object_filter)
        ∷ ("clf", camera_lidar_fusion)
        ∷ ("mot", multi_object_tracker)
        ∷ ("mbp", map_based_prediction)
        ∷ ("ogm", occupancy_grid_map)
        ∷ ("tlmbd", traffic_light_map_based_detector)
        ∷ ("tlc", traffic_light_classifier)
        ∷ ("tla", traffic_light_arbiter)
        ∷ ("tlop", traffic_light_occlusion_predictor)
        ∷ ("ctle", crosswalk_traffic_light_estimator)
        ∷ ("yolox", tensorrt_yolox)
        ∷ ("tls", traffic_light_selector)
        ∷ ("tlcm", traffic_light_category_merger)
        ∷ ("som", simple_object_merger)
        ∷ ("ors", object_range_splitter)
        ∷ ("ogmof", occupancy_grid_map_outlier_filter)
        ∷ ("mp", mission_planner)
        ∷ ("bpp", behavior_path_planner)
        ∷ ("bvp", behavior_velocity_planner)
        ∷ ("ps", path_smoother)
        ∷ ("po", path_optimizer)
        ∷ ("mvp", motion_velocity_planner)
        ∷ ("soc", surround_obstacle_checker)
        ∷ ("ss", scenario_selector)
        ∷ ("vs", velocity_smoother)
        ∷ ("fp", freespace_planner)
        ∷ ("cg", costmap_generator)
        ∷ ("pv", planning_validator)
        ∷ ("evls", external_velocity_limit_selector)
        ∷ ("pg", path_generator)
        ∷ ("psa", path_sampler)
        ∷ ("tf", trajectory_follower)
        ∷ ("sd", shift_decider)
        ∷ ("vcg", vehicle_cmd_gate)
        ∷ ("omtm", operation_mode_transition_manager)
        ∷ ("ldc", lane_departure_checker)
        ∷ ("cv", control_validator)
        ∷ ("aeb", autonomous_emergency_braking)
        ∷ ("cd", collision_detector)
        ∷ ("occ", obstacle_collision_checker)
        ∷ ("ppc", predicted_path_checker)
        ∷ ("ecs", external_cmd_selector)
        ∷ ("bridge", bridge_interface)
        ∷ ("mcso", mrm_comfortable_stop_operator)
        ∷ ("hsc", hazard_status_converter)
        ∷ ("dnc", duplicated_node_checker)
        ∷ ("ptc", processing_time_checker)
        ∷ ("plm", pipeline_latency_monitor)
        ∷ ("csm", component_state_monitor)
        ∷ ("ci", carla_interface)
        ∷ []))
      (across (port_of "vcg" "control_cmd") (port_of "bridge" "control_cmd_in") "ros2"
        ∷ across (port_of "vcg" "gear_cmd") (port_of "bridge" "gear_cmd_in") "ros2"
        ∷ across (port_of "vcg" "turn_indicators_cmd") (port_of "bridge" "turn_indicators_cmd_in")
            "ros2"
        ∷ across (port_of "vcg" "hazard_lights_cmd") (port_of "bridge" "hazard_lights_cmd_in")
            "ros2"
        ∷ across (port_of "ss" "trajectory_out") (port_of "vs" "trajectory_in") "ros2"
        ∷ [])

abbrev pub autoware_universe : Reactor
autoware_universe =
    reactor "AutowareUniverse" []
      (create (("planning", planning) ∷ ("control", control) ∷ ("bridge", bridge_interface) ∷ []))
      (across (port_of "control" "control_cmd_out") (port_of "bridge" "control_cmd_in") "ros2"
        ∷ across (port_of "control" "gear_cmd_out") (port_of "bridge" "gear_cmd_in") "ros2"
        ∷ across (port_of "control" "turn_indicators_cmd_out")
            (port_of "bridge" "turn_indicators_cmd_in") "ros2"
        ∷ across (port_of "control" "hazard_lights_cmd_out")
            (port_of "bridge" "hazard_lights_cmd_in") "ros2"
        ∷ [])

abbrev pub autoware_mono : Reactor
autoware_mono =
    reactor "AutowareMono" []
      (create (
        ("sensing", sensing)
        ∷ ("localization", localization)
        ∷ ("perception", perception)
        ∷ ("map", package_map)
        ∷ ("planning", planning)
        ∷ ("control", control)
        ∷ ("bridge", bridge_interface)
        ∷ []))
      (inside (port_of "control" "control_cmd_out") (port_of "bridge" "control_cmd_in")
        ∷ inside (port_of "control" "gear_cmd_out") (port_of "bridge" "gear_cmd_in")
        ∷ inside (port_of "control" "turn_indicators_cmd_out")
            (port_of "bridge" "turn_indicators_cmd_in")
        ∷ inside (port_of "control" "hazard_lights_cmd_out")
            (port_of "bridge" "hazard_lights_cmd_in")
        ∷ [])

abbrev pub programs : List Reactor
programs = autoware_federated ∷ autoware_universe ∷ autoware_mono ∷ []
