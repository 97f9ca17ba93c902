-- ===== src/Wiring/Leaves.antt =====
-- The reactors without ports, each from lf-src/<name>/<name>_main.lf.
use lf_autoware.Base.{String, []}
use lf_autoware.Wiring.{Reactor, reactor, no_more}

abbrev leaf : String → Reactor
leaf name = reactor name [] no_more []

abbrev pub crop_box_filter : Reactor
crop_box_filter = leaf "crop_box_filter"

abbrev pub imu_corrector : Reactor
imu_corrector = leaf "imu_corrector"

abbrev pub vehicle_velocity_converter : Reactor
vehicle_velocity_converter = leaf "vehicle_velocity_converter"

abbrev pub random_downsample_filter : Reactor
random_downsample_filter = leaf "random_downsample_filter"

abbrev pub passthrough_filter : Reactor
passthrough_filter = leaf "passthrough_filter"

abbrev pub voxel_grid_outlier_filter : Reactor
voxel_grid_outlier_filter = leaf "voxel_grid_outlier_filter"

abbrev pub approximate_downsample_filter : Reactor
approximate_downsample_filter = leaf "approximate_downsample_filter"

abbrev pub image_decompressor : Reactor
image_decompressor = leaf "image_decompressor"

abbrev pub ndt_scan_matcher : Reactor
ndt_scan_matcher = leaf "ndt_scan_matcher"

abbrev pub gyro_odometer : Reactor
gyro_odometer = leaf "gyro_odometer"

abbrev pub ekf_localizer : Reactor
ekf_localizer = leaf "ekf_localizer"

abbrev pub localization_error_monitor : Reactor
localization_error_monitor = leaf "localization_error_monitor"

abbrev pub pose_instability_detector : Reactor
pose_instability_detector = leaf "pose_instability_detector"

abbrev pub stop_filter : Reactor
stop_filter = leaf "stop_filter"

abbrev pub pointcloud_map_loader : Reactor
pointcloud_map_loader = leaf "pointcloud_map_loader"

abbrev pub lanelet2_map_loader : Reactor
lanelet2_map_loader = leaf "lanelet2_map_loader"

abbrev pub ground_segmentation : Reactor
ground_segmentation = leaf "ground_segmentation"

abbrev pub lidar_centerpoint : Reactor
lidar_centerpoint = leaf "lidar_centerpoint"

abbrev pub euclidean_cluster : Reactor
euclidean_cluster = leaf "euclidean_cluster"

abbrev pub pointcloud_map_filter : Reactor
pointcloud_map_filter = leaf "pointcloud_map_filter"

abbrev pub detection_by_tracker : Reactor
detection_by_tracker = leaf "detection_by_tracker"

abbrev pub object_validator : Reactor
object_validator = leaf "object_validator"

abbrev pub object_filter : Reactor
object_filter = leaf "object_filter"

abbrev pub camera_lidar_fusion : Reactor
camera_lidar_fusion = leaf "camera_lidar_fusion"

abbrev pub multi_object_tracker : Reactor
multi_object_tracker = leaf "multi_object_tracker"

abbrev pub map_based_prediction : Reactor
map_based_prediction = leaf "map_based_prediction"

abbrev pub occupancy_grid_map : Reactor
occupancy_grid_map = leaf "occupancy_grid_map"

abbrev pub traffic_light_map_based_detector : Reactor
traffic_light_map_based_detector = leaf "traffic_light_map_based_detector"

abbrev pub traffic_light_classifier : Reactor
traffic_light_classifier = leaf "traffic_light_classifier"

abbrev pub traffic_light_arbiter : Reactor
traffic_light_arbiter = leaf "traffic_light_arbiter"

abbrev pub traffic_light_occlusion_predictor : Reactor
traffic_light_occlusion_predictor = leaf "traffic_light_occlusion_predictor"

abbrev pub crosswalk_traffic_light_estimator : Reactor
crosswalk_traffic_light_estimator = leaf "crosswalk_traffic_light_estimator"

abbrev pub tensorrt_yolox : Reactor
tensorrt_yolox = leaf "tensorrt_yolox"

abbrev pub traffic_light_selector : Reactor
traffic_light_selector = leaf "traffic_light_selector"

abbrev pub traffic_light_category_merger : Reactor
traffic_light_category_merger = leaf "traffic_light_category_merger"

abbrev pub simple_object_merger : Reactor
simple_object_merger = leaf "simple_object_merger"

abbrev pub object_range_splitter : Reactor
object_range_splitter = leaf "object_range_splitter"

abbrev pub occupancy_grid_map_outlier_filter : Reactor
occupancy_grid_map_outlier_filter = leaf "occupancy_grid_map_outlier_filter"

abbrev pub behavior_velocity_planner : Reactor
behavior_velocity_planner = leaf "behavior_velocity_planner"

abbrev pub path_smoother : Reactor
path_smoother = leaf "path_smoother"

abbrev pub path_optimizer : Reactor
path_optimizer = leaf "path_optimizer"

abbrev pub motion_velocity_planner : Reactor
motion_velocity_planner = leaf "motion_velocity_planner"

abbrev pub surround_obstacle_checker : Reactor
surround_obstacle_checker = leaf "surround_obstacle_checker"

abbrev pub planning_validator : Reactor
planning_validator = leaf "planning_validator"

abbrev pub external_velocity_limit_selector : Reactor
external_velocity_limit_selector = leaf "external_velocity_limit_selector"

abbrev pub path_generator : Reactor
path_generator = leaf "path_generator"

abbrev pub path_sampler : Reactor
path_sampler = leaf "path_sampler"

abbrev pub operation_mode_transition_manager : Reactor
operation_mode_transition_manager = leaf "operation_mode_transition_manager"

abbrev pub lane_departure_checker : Reactor
lane_departure_checker = leaf "lane_departure_checker"

abbrev pub control_validator : Reactor
control_validator = leaf "control_validator"

abbrev pub autonomous_emergency_braking : Reactor
autonomous_emergency_braking = leaf "autonomous_emergency_braking"

abbrev pub collision_detector : Reactor
collision_detector = leaf "collision_detector"

abbrev pub obstacle_collision_checker : Reactor
obstacle_collision_checker = leaf "obstacle_collision_checker"

abbrev pub predicted_path_checker : Reactor
predicted_path_checker = leaf "predicted_path_checker"

abbrev pub external_cmd_selector : Reactor
external_cmd_selector = leaf "external_cmd_selector"

abbrev pub mrm_comfortable_stop_operator : Reactor
mrm_comfortable_stop_operator = leaf "mrm_comfortable_stop_operator"

abbrev pub hazard_status_converter : Reactor
hazard_status_converter = leaf "hazard_status_converter"

abbrev pub duplicated_node_checker : Reactor
duplicated_node_checker = leaf "duplicated_node_checker"

abbrev pub processing_time_checker : Reactor
processing_time_checker = leaf "processing_time_checker"

abbrev pub pipeline_latency_monitor : Reactor
pipeline_latency_monitor = leaf "pipeline_latency_monitor"

abbrev pub component_state_monitor : Reactor
component_state_monitor = leaf "component_state_monitor"

abbrev pub carla_interface : Reactor
carla_interface = leaf "carla_interface"
