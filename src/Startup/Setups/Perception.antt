-- ===== src/Startup/Setups/Perception.antt =====
-- What the startup reactions load and add: the reactors that AutowareFederated.lf lists under Perception.
use lf_autoware.Base.{List, [], ◌∷◌, codes, pos}
use lf_autoware.Config.Yaml.{integer, text}
use lf_autoware.Startup.{Setup, from_yaml, from_yamls, parameter}
use lf_autoware.Startup.Paths.Common.{vehicle_info_param}
use lf_autoware.Startup.Paths.Perception.{
  roi_cluster_fusion_param, fusion_common_param, crosswalk_traffic_light_estimator_param,
  detection_by_tracker_param, euclidean_cluster_param, scan_ground_filter_param,
  map_based_prediction_param, object_lanelet_filter_param, object_range_splitter_param,
  obstacle_pointcloud_validator_param, occupancy_grid_map_param, occupancy_grid_map_updater_param,
  occupancy_grid_map_outlier_filter_param, compare_map_filter_param, simple_object_merger_param,
  tensorrt_yolox_param,
}

abbrev pub camera_lidar_fusion : {D : Type 0} → Setup D
camera_lidar_fusion = record {
  loading = from_yamls (roi_cluster_fusion_param ∷ fusion_common_param ∷ []);
  extra = parameter (codes "rois_number") (integer (pos 1)) ∷ [];
}

abbrev pub crosswalk_traffic_light_estimator : {D : Type 0} → Setup D
crosswalk_traffic_light_estimator = record {
  loading = from_yaml crosswalk_traffic_light_estimator_param;
  extra = [];
}

abbrev pub detection_by_tracker : {D : Type 0} → Setup D
detection_by_tracker = record { loading = from_yaml detection_by_tracker_param; extra = [] }

abbrev pub euclidean_cluster : {D : Type 0} → Setup D
euclidean_cluster = record { loading = from_yaml euclidean_cluster_param; extra = [] }

abbrev pub ground_segmentation : {D : Type 0} → Setup D
ground_segmentation = record {
  loading = from_yamls (scan_ground_filter_param ∷ vehicle_info_param ∷ []);
  extra = [];
}

abbrev pub map_based_prediction : {D : Type 0} → Setup D
map_based_prediction = record { loading = from_yaml map_based_prediction_param; extra = [] }

abbrev pub object_filter : {D : Type 0} → Setup D
object_filter = record { loading = from_yaml object_lanelet_filter_param; extra = [] }

abbrev pub object_range_splitter : {D : Type 0} → Setup D
object_range_splitter = record { loading = from_yaml object_range_splitter_param; extra = [] }

abbrev pub object_validator : {D : Type 0} → Setup D
object_validator = record { loading = from_yaml obstacle_pointcloud_validator_param; extra = [] }

abbrev pub occupancy_grid_map : {D : Type 0} → Setup D
occupancy_grid_map = record {
  loading = from_yamls (occupancy_grid_map_param ∷ occupancy_grid_map_updater_param ∷ []);
  extra = parameter (codes "updater_type") (text (codes "binary_bayes_filter")) ∷ [];
}

abbrev pub occupancy_grid_map_outlier_filter : {D : Type 0} → Setup D
occupancy_grid_map_outlier_filter = record {
  loading = from_yaml occupancy_grid_map_outlier_filter_param;
  extra = [];
}

abbrev pub pointcloud_map_filter : {D : Type 0} → Setup D
pointcloud_map_filter = record { loading = from_yaml compare_map_filter_param; extra = [] }

abbrev pub simple_object_merger : {D : Type 0} → Setup D
simple_object_merger = record { loading = from_yaml simple_object_merger_param; extra = [] }

abbrev pub tensorrt_yolox : {D : Type 0} → Setup D
tensorrt_yolox = record { loading = from_yaml tensorrt_yolox_param; extra = [] }

abbrev pub perception_setups : {D : Type 0} → List (Setup D)
perception_setups =
    camera_lidar_fusion ∷ crosswalk_traffic_light_estimator ∷ detection_by_tracker
    ∷ euclidean_cluster ∷ ground_segmentation ∷ map_based_prediction ∷ object_filter
    ∷ object_range_splitter ∷ object_validator ∷ occupancy_grid_map
    ∷ occupancy_grid_map_outlier_filter ∷ pointcloud_map_filter ∷ simple_object_merger
    ∷ tensorrt_yolox ∷ []
