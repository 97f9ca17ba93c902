-- ===== src/Wiring/Ports.antt =====
-- The reactors with ports, each from lf-src/<name>/<name>_main.lf.
use lf_autoware.Base.{String, [], ◌∷◌}
use lf_autoware.Wiring.{input, output, PortDecl, Reactor, reactor, no_more}

abbrev pub input_port : String → String → PortDecl
input_port name type = record { direction = input; name = name; type = type }

abbrev pub output_port : String → String → PortDecl
output_port name type = record { direction = output; name = name; type = type }

abbrev pub mission_planner : Reactor
mission_planner =
    reactor "mission_planner"
      (output_port "route_out" "std::shared_ptr<autoware_planning_msgs::msg::LaneletRoute>" ∷ [])
      no_more []

abbrev pub behavior_path_planner : Reactor
behavior_path_planner =
    reactor "behavior_path_planner"
      (output_port "path_out"
          "std::shared_ptr<autoware_internal_planning_msgs::msg::PathWithLaneId>"
        ∷ output_port "turn_signal_out"
            "std::shared_ptr<autoware_vehicle_msgs::msg::TurnIndicatorsCommand>"
        ∷ output_port "hazard_signal_out"
            "std::shared_ptr<autoware_vehicle_msgs::msg::HazardLightsCommand>"
        ∷ [])
      no_more []

abbrev pub scenario_selector : Reactor
scenario_selector =
    reactor "scenario_selector"
      (output_port "trajectory_out" "std::shared_ptr<autoware_planning_msgs::msg::Trajectory>"
        ∷ output_port "scenario_out"
            "std::shared_ptr<autoware_internal_planning_msgs::msg::Scenario>"
        ∷ [])
      no_more []

abbrev pub velocity_smoother : Reactor
velocity_smoother =
    reactor "velocity_smoother"
      (input_port "trajectory_in" "std::shared_ptr<autoware_planning_msgs::msg::Trajectory>"
        ∷ output_port "trajectory_out" "std::shared_ptr<autoware_planning_msgs::msg::Trajectory>"
        ∷ [])
      no_more []

abbrev pub freespace_planner : Reactor
freespace_planner =
    reactor "freespace_planner"
      (output_port "trajectory_out" "std::shared_ptr<autoware_planning_msgs::msg::Trajectory>"
        ∷ output_port "is_completed" "std::shared_ptr<bool>"
        ∷ [])
      no_more []

abbrev pub costmap_generator : Reactor
costmap_generator =
    reactor "costmap_generator"
      (output_port "occupancy_grid_out" "std::shared_ptr<nav_msgs::msg::OccupancyGrid>" ∷ [])
      no_more []

abbrev pub trajectory_follower : Reactor
trajectory_follower =
    reactor "trajectory_follower"
      (output_port "control_cmd" "std::shared_ptr<autoware_control_msgs::msg::Control>" ∷ [])
      no_more []

abbrev pub shift_decider : Reactor
shift_decider =
    reactor "shift_decider"
      (output_port "gear_cmd" "std::shared_ptr<autoware_vehicle_msgs::msg::GearCommand>" ∷ [])
      no_more []

abbrev pub vehicle_cmd_gate : Reactor
vehicle_cmd_gate =
    reactor "vehicle_cmd_gate"
      (output_port "control_cmd" "std::shared_ptr<autoware_control_msgs::msg::Control>"
        ∷ output_port "gear_cmd" "std::shared_ptr<autoware_vehicle_msgs::msg::GearCommand>"
        ∷ output_port "turn_indicators_cmd"
            "std::shared_ptr<autoware_vehicle_msgs::msg::TurnIndicatorsCommand>"
        ∷ output_port "hazard_lights_cmd"
            "std::shared_ptr<autoware_vehicle_msgs::msg::HazardLightsCommand>"
        ∷ [])
      no_more []

abbrev pub bridge_interface : Reactor
bridge_interface =
    reactor "bridge_interface"
      (input_port "control_cmd_in" "std::shared_ptr<autoware_control_msgs::msg::Control>"
        ∷ input_port "gear_cmd_in" "std::shared_ptr<autoware_vehicle_msgs::msg::GearCommand>"
        ∷ input_port "turn_indicators_cmd_in"
            "std::shared_ptr<autoware_vehicle_msgs::msg::TurnIndicatorsCommand>"
        ∷ input_port "hazard_lights_cmd_in"
            "std::shared_ptr<autoware_vehicle_msgs::msg::HazardLightsCommand>"
        ∷ [])
      no_more []
