-- ===== src/Wiring/Packages.antt =====
-- The reactors of lf-src/Packages, each of which groups the nodes of one part of Autoware.
use lf_autoware.Base.{String, true, false, none, some, [], ◌∷◌}
use lf_autoware.Wiring.{End, Connection, Reactor, reactor, create}
use lf_autoware.Wiring.Ports.{output_port}
use lf_autoware.Wiring.Ports.{
  mission_planner, behavior_path_planner, scenario_selector, velocity_smoother, freespace_planner,
  costmap_generator, trajectory_follower, shift_decider, vehicle_cmd_gate,
}
use lf_autoware.Wiring.Leaves.{
  crop_box_filter, imu_corrector, vehicle_velocity_converter, ndt_scan_matcher, gyro_odometer,
  ekf_localizer, ground_segmentation, lidar_centerpoint, euclidean_cluster, pointcloud_map_filter,
  detection_by_tracker, object_validator, object_filter, camera_lidar_fusion, multi_object_tracker,
  map_based_prediction, occupancy_grid_map, traffic_light_map_based_detector,
  traffic_light_classifier, traffic_light_arbiter, traffic_light_occlusion_predictor,
  crosswalk_traffic_light_estimator, pointcloud_map_loader, lanelet2_map_loader,
  behavior_velocity_planner, path_smoother, path_optimizer, motion_velocity_planner,
  surround_obstacle_checker, planning_validator, external_velocity_limit_selector,
  operation_mode_transition_manager, lane_departure_checker, control_validator,
  autonomous_emergency_braking, collision_detector,
}

-- `instance.port` and `port`.
abbrev pub port_of : String → String → End
port_of i port = record { instance_name = some i; port = port }

abbrev pub own : String → End
own port = record { instance_name = none; port = port }

-- `source -> target;`
abbrev pub inside : End → End → Connection
inside source target = record {
  source = source;
  target = target;
  physical = false;
  serializer = none;
}

-- `source ~> target serializer "…";`
abbrev pub across : End → End → String → Connection
across source target serializer = record {
  source = source;
  target = target;
  physical = true;
  serializer = some serializer;
}

abbrev pub sensing : Reactor
sensing =
    reactor "Sensing" ([])
      (create (
        ("cbf_self", crop_box_filter)
        ∷ ("imu", imu_corrector)
        ∷ ("vvc", vehicle_velocity_converter)
        ∷ []))
      ([])

abbrev pub localization : Reactor
localization =
    reactor "Localization" ([])
      (create (("ndt", ndt_scan_matcher) ∷ ("gyro", gyro_odometer) ∷ ("ekf", ekf_localizer) ∷ []))
      ([])

abbrev pub perception : Reactor
perception =
    reactor "Perception" ([])
      (create (
        ("gs", ground_segmentation)
        ∷ ("lcp", lidar_centerpoint)
        ∷ ("ec", euclidean_cluster)
        ∷ ("pmf", pointcloud_map_filter)
        ∷ ("dbt", detection_by_tracker)
        ∷ ("ov", object_validator)
        ∷ ("of", object_filter)
        ∷ ("clf", camera_lidar_fusion)
        ∷ ("mot", multi_object_tracker)
        ∷ ("mbp", map_based_prediction)
        ∷ ("ogm", occupancy_grid_map)
        ∷ ("tlmbd", traffic_light_map_based_detector)
        ∷ ("tlc", traffic_light_classifier)
        ∷ ("tla", traffic_light_arbiter)
        ∷ ("tlop", traffic_light_occlusion_predictor)
        ∷ ("ctle", crosswalk_traffic_light_estimator)
        ∷ []))
      ([])

abbrev pub package_map : Reactor
package_map =
    reactor "Map" ([]) (create (("pcm", pointcloud_map_loader) ∷ ("l2m", lanelet2_map_loader) ∷ []))
      ([])

abbrev pub planning : Reactor
planning =
    reactor "Planning"
      (output_port "trajectory_out" "std::shared_ptr<autoware_planning_msgs::msg::Trajectory>" ∷ [])
      (create (
        ("mp", mission_planner)
        ∷ ("bpp", behavior_path_planner)
        ∷ ("bvp", behavior_velocity_planner)
        ∷ ("ps", path_smoother)
        ∷ ("po", path_optimizer)
        ∷ ("mvp", motion_velocity_planner)
        ∷ ("soc", surround_obstacle_checker)
        ∷ ("ss", scenario_selector)
        ∷ ("vs", velocity_smoother)
        ∷ ("fp", freespace_planner)
        ∷ ("cg", costmap_generator)
        ∷ ("pv", planning_validator)
        ∷ ("evls", external_velocity_limit_selector)
        ∷ []))
      (inside (port_of "ss" "trajectory_out") (port_of "vs" "trajectory_in")
        ∷ inside (port_of "vs" "trajectory_out") (own "trajectory_out")
        ∷ [])

abbrev pub control : Reactor
control =
    reactor "Control"
      (output_port "control_cmd_out" "std::shared_ptr<autoware_control_msgs::msg::Control>"
        ∷ output_port "gear_cmd_out" "std::shared_ptr<autoware_vehicle_msgs::msg::GearCommand>"
        ∷ output_port "turn_indicators_cmd_out"
            "std::shared_ptr<autoware_vehicle_msgs::msg::TurnIndicatorsCommand>"
        ∷ output_port "hazard_lights_cmd_out"
            "std::shared_ptr<autoware_vehicle_msgs::msg::HazardLightsCommand>"
        ∷ [])
      (create (
        ("tf", trajectory_follower)
        ∷ ("sd", shift_decider)
        ∷ ("vcg", vehicle_cmd_gate)
        ∷ ("omtm", operation_mode_transition_manager)
        ∷ ("ldc", lane_departure_checker)
        ∷ ("cv", control_validator)
        ∷ ("aeb", autonomous_emergency_braking)
        ∷ ("cd", collision_detector)
        ∷ []))
      (inside (port_of "vcg" "control_cmd") (own "control_cmd_out")
        ∷ inside (port_of "vcg" "gear_cmd") (own "gear_cmd_out")
        ∷ inside (port_of "vcg" "turn_indicators_cmd") (own "turn_indicators_cmd_out")
        ∷ inside (port_of "vcg" "hazard_lights_cmd") (own "hazard_lights_cmd_out")
        ∷ [])
