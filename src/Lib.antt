-- ===== src/Lib.antt =====
-- The LF federation of Autoware: its start and configuration, its connections, its scheduling, and
-- the paths of its vehicle commands and trajectories.
--
-- The program wraps each Autoware node in a Lingua Franca reactor (lf-src/*/*_main.lf) and runs the
-- reactors as federates. Every federate has a generated preamble (lf-src/fed-gen/
-- AutowareFederated/src/include/_federate__*_preamble.h), which sets up its identity, its sockets
-- and its trigger tables. A reactor's startup reads parameter files by lf-src/lf-include/utils.hpp,
-- builds the node, and starts a spin thread. At run time the reactor vehicle_cmd_gate forwards the
-- commands of its node to network senders, and the federate of bridge_interface publishes them.
--
-- Base passes on the names of the libraries, and has lists, tests and texts over the native
-- numbers. A text is a list of character codes.
--
-- Federate is the start of a federate. Federate/Runtime has the globals `_lf_my_fed_id` and `_fed`
-- and the runtime calls, Federate/Preamble has `_lf_executable_preamble`, Federate/Triggers has
-- `initialize_triggers_for_federate` and `staa_initialization`, and Federate/Neighbor has
-- `lf_send_neighbor_structure_to_RTI`. The 46 files differ only in values, which are a record
-- `Preamble`; Federate/Table has one for each file, and Federate/Topology says how they fit
-- together. A runtime call that fails ends the process, and is modelled so.
--
-- Federate/Triggers/Checked runs the same initialization with every index checked, where `none` is an
-- access past the end of an array. Federate/Rendezvous interleaves the peer-to-peer calls of all the
-- starts: a connection waits for the thread of the other federate that accepts it, as net_common.h
-- documents.
--
-- Config is lf-src/lf-include/utils.hpp. Config/Substitute is the replacement loop of
-- `resolve_yaml_vars` and Config/Resolve the function; Config/Yaml, Config/Process and
-- Config/Options are `_rewrite_yaml_as_global` and the functions that give node options;
-- Config/Spin is the spin threads. The state is a process with its files, its environment and the
-- two static counters. The replacement loop runs on fuel, one more than the text has bytes: every
-- round goes past at least one byte of the text that was there before it. The spin threads run on
-- fuel, and more rounds than rclcpp::ok() answers yes are enough.
--
-- Command is the path of the vehicle commands. Command/Gate is the timer reaction of
-- lf-src/vehicle_cmd_gate/vehicle_cmd_gate_main.lf, Command/Network has the senders and receivers
-- of federate__vcg.lf and federate__bridge.lf (lf-src/fed-gen/AutowareFederated/src) and the
-- publishers of lf-src/bridge_interface/bridge_interface_main.lf, and Command/System interleaves
-- them. The socket between the federates keeps the order of its frames. Which action a frame
-- schedules is looked up in the action table that Federate/Triggers builds. Commands carry no tags:
-- when a frame arrives is free.
--
-- Planning is the path of the trajectories: the reactions of lf-src/scenario_selector/
-- scenario_selector_main.lf and lf-src/velocity_smoother/velocity_smoother_main.lf, the sender of
-- federate__ss.lf and the receiver of federate__vs.lf, interleaved in Planning/System. Slots has the
-- members of a node by which it passes a message to its reactor, `lf_output_<name>` and
-- `lf_<name>_is_set`. Timers has the other reactions that forward such messages; Timers/Machine
-- says what they promise, as an interface that each of them fills.
--
-- Scheduling is what the 21 reactors with a timer do with the timers of their nodes: the startup
-- reactions from the construction of the node on, and which methods the timer reactions call. The
-- timers that a node has are a parameter, since the nodes are not code of the repository.
--
-- Wiring has the .lf files as data: Wiring/Ports and Wiring/Leaves the reactors of lf-src/*/*_main.lf
-- with their ports, Wiring/Packages those of lf-src/Packages, Wiring/Programs the programs
-- lf-src/AutowareFederated.lf, AutowareUniverse.lf and AutowareMono.lf, and Wiring/Generated the
-- federates of lf-src/fed-gen/AutowareFederated/src, with the senders and receivers in Wiring/Network
-- and Wiring/Communicating. A reactor holds the classes of its instances, so that programs are trees.
-- Wiring/Compiled joins the generated federates by their network messages. `follow` runs on fuel; the
-- results that use it give enough of it, four connections within a program and six over the network.
--
-- Route is the reaction of lf-src/mission_planner/mission_planner_main.lf, which polls an output that
-- callbacks of the spin thread set: a step is one statement of the reaction, or one of the
-- two by which a callback sets the route and then its flag.
--
-- Startup is what the startup reactions of the reactors (lf-src/*/*_main.lf) give their nodes:
-- Startup/Setups has the values of 73 of them, in files by the parts of lf-src/AutowareFederated.lf,
-- and Startup/Paths the constants of lf-src/lf-include/constants.hpp that they name. Startup/Derived
-- has four that compute parameters, from the environment or in a loop, Startup/Channels the channels
-- that one of them sets, and Startup/Monitors that of system_monitor, which makes eight nodes.
-- Startup/MapLoader is that of lf-src/pointcloud_map_loader/pointcloud_map_loader_main.lf, and
-- Startup/Centerpoint that of lf-src/lidar_centerpoint/lidar_centerpoint_main.lf.
--
-- Carla is the loop of lf-src/carla_interface/CarlaInterface.lf with the frames of
-- lf-src/carla_interface/carla_bridge.py. A delay of 0 on a connection puts an event off by one
-- microstep.
--
-- Tests has a run of each part and the instances of the theorems.
--
-- Not modelled: the reactor-c runtime, ROS 2 and the Autoware nodes, which are libraries and appear
-- as parameters; the rest of the startup reactions, which call them; the headers of reactor-c under
-- fed-gen, which are a copy of that library; tags and deadlines, except in Scheduling and Carla; log
-- messages; scripts, containers and build files.
pub mod Base
pub mod Carla
pub mod Command
pub mod Config
pub mod Federate
pub mod Planning
pub mod Route
pub mod Scheduling
pub mod Slots
pub mod Startup
pub mod Tests
pub mod Timers
pub mod Wiring
