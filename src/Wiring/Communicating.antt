-- ===== src/Wiring/Communicating.antt =====
-- The four generated federates that send or receive: lf-src/fed-gen/AutowareFederated/src/
-- federate__ss.lf, federate__vs.lf, federate__vcg.lf and federate__bridge.lf.
use lf_autoware.Base.{[], ◌∷◌}
use lf_autoware.Wiring.{reactor, create}
use lf_autoware.Wiring.Ports.{
  scenario_selector, velocity_smoother, vehicle_cmd_gate, bridge_interface,
}
use lf_autoware.Wiring.Network.{Federate, network_sender_of, network_receiver_of, input_of, send}
use lf_autoware.Wiring.Packages.{inside, port_of}

abbrev pub ss_main : Federate
ss_main = record {
  federate_id = 31;
  main =
      reactor "" []
        (create (
          ("ss", scenario_selector)
          ∷ (
            "ns_federate__vs",
            network_sender_of "NetworkSender_0"
                "std::shared_ptr<autoware_planning_msgs::msg::Trajectory>",
          )
          ∷ []))
        (inside (port_of "ss" "trajectory_out") (port_of "ns_federate__vs" "msg") ∷ []);
  sends = send "ns_federate__vs" 0 32 ∷ [];
}

abbrev pub vs_main : Federate
vs_main = record {
  federate_id = 32;
  main =
      reactor "" []
        (create (
          ("vs", velocity_smoother)
          ∷ (
            "nr_federate__vs",
            network_receiver_of "NetworkReceiver_0"
                "std::shared_ptr<autoware_planning_msgs::msg::Trajectory>",
          )
          ∷ (
            "_vstrajectory_in0",
            input_of "_vstrajectory_in" "std::shared_ptr<autoware_planning_msgs::msg::Trajectory>",
          )
          ∷ []))
        (inside (port_of "_vstrajectory_in0" "port") (port_of "vs" "trajectory_in")
          ∷ inside (port_of "nr_federate__vs" "msg") (port_of "_vstrajectory_in0" "port0")
          ∷ []);
  sends = [];
}

abbrev pub vcg_main : Federate
vcg_main = record {
  federate_id = 39;
  main =
      reactor "" []
        (create (
          ("vcg", vehicle_cmd_gate)
          ∷ (
            "ns_federate__bridge",
            network_sender_of "NetworkSender_0"
                "std::shared_ptr<autoware_control_msgs::msg::Control>",
          )
          ∷ (
            "ns_federate__bridge_0",
            network_sender_of "NetworkSender_1"
                "std::shared_ptr<autoware_vehicle_msgs::msg::GearCommand>",
          )
          ∷ (
            "ns_federate__bridge_1",
            network_sender_of "NetworkSender_2"
                "std::shared_ptr<autoware_vehicle_msgs::msg::TurnIndicatorsCommand>",
          )
          ∷ (
            "ns_federate__bridge_2",
            network_sender_of "NetworkSender_3"
                "std::shared_ptr<autoware_vehicle_msgs::msg::HazardLightsCommand>",
          )
          ∷ []))
        (inside (port_of "vcg" "control_cmd") (port_of "ns_federate__bridge" "msg")
          ∷ inside (port_of "vcg" "gear_cmd") (port_of "ns_federate__bridge_0" "msg")
          ∷ inside (port_of "vcg" "turn_indicators_cmd") (port_of "ns_federate__bridge_1" "msg")
          ∷ inside (port_of "vcg" "hazard_lights_cmd") (port_of "ns_federate__bridge_2" "msg")
          ∷ []);
  sends =
      send "ns_federate__bridge" 0 45
      ∷ send "ns_federate__bridge_0" 1 45
      ∷ send "ns_federate__bridge_1" 2 45
      ∷ send "ns_federate__bridge_2" 3 45
      ∷ [];
}

abbrev pub bridge_main : Federate
bridge_main = record {
  federate_id = 45;
  main =
      reactor "" []
        (create (
          ("bridge", bridge_interface)
          ∷ (
            "nr_federate__bridge",
            network_receiver_of "NetworkReceiver_1"
                "std::shared_ptr<autoware_control_msgs::msg::Control>",
          )
          ∷ (
            "nr_federate__bridge_0",
            network_receiver_of "NetworkReceiver_2"
                "std::shared_ptr<autoware_vehicle_msgs::msg::GearCommand>",
          )
          ∷ (
            "nr_federate__bridge_1",
            network_receiver_of "NetworkReceiver_3"
                "std::shared_ptr<autoware_vehicle_msgs::msg::TurnIndicatorsCommand>",
          )
          ∷ (
            "nr_federate__bridge_2",
            network_receiver_of "NetworkReceiver_4"
                "std::shared_ptr<autoware_vehicle_msgs::msg::HazardLightsCommand>",
          )
          ∷ (
            "_bridgecontrol_cmd_in0",
            input_of "_bridgecontrol_cmd_in" "std::shared_ptr<autoware_control_msgs::msg::Control>",
          )
          ∷ (
            "_bridgegear_cmd_in0",
            input_of "_bridgegear_cmd_in"
                "std::shared_ptr<autoware_vehicle_msgs::msg::GearCommand>",
          )
          ∷ (
            "_bridgeturn_indicators_cmd_in0",
            input_of "_bridgeturn_indicators_cmd_in"
                "std::shared_ptr<autoware_vehicle_msgs::msg::TurnIndicatorsCommand>",
          )
          ∷ (
            "_bridgehazard_lights_cmd_in0",
            input_of "_bridgehazard_lights_cmd_in"
                "std::shared_ptr<autoware_vehicle_msgs::msg::HazardLightsCommand>",
          )
          ∷ []))
        (inside (port_of "_bridgecontrol_cmd_in0" "port") (port_of "bridge" "control_cmd_in")
          ∷ inside (port_of "_bridgegear_cmd_in0" "port") (port_of "bridge" "gear_cmd_in")
          ∷ inside (port_of "_bridgeturn_indicators_cmd_in0" "port")
              (port_of "bridge" "turn_indicators_cmd_in")
          ∷ inside (port_of "_bridgehazard_lights_cmd_in0" "port")
              (port_of "bridge" "hazard_lights_cmd_in")
          ∷ inside (port_of "nr_federate__bridge" "msg") (port_of "_bridgecontrol_cmd_in0" "port0")
          ∷ inside (port_of "nr_federate__bridge_0" "msg") (port_of "_bridgegear_cmd_in0" "port0")
          ∷ inside (port_of "nr_federate__bridge_1" "msg")
              (port_of "_bridgeturn_indicators_cmd_in0" "port0")
          ∷ inside (port_of "nr_federate__bridge_2" "msg")
              (port_of "_bridgehazard_lights_cmd_in0" "port0")
          ∷ []);
  sends = [];
}
