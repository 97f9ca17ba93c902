-- ===== src/Startup/Paths/Perception.antt =====
-- Parameter paths of lf-src/lf-include/constants.hpp: perception.
use lf_autoware.Base.{◌++◌, Text, codes}
use lf_autoware.Startup.Paths.Common.{launcher_config_path}

abbrev pub scan_ground_filter_param : Text
scan_ground_filter_param =
    codes
      "src/universe/autoware_universe/perception/autoware_ground_segmentation/config/scan_ground_filter.param.yaml"

abbrev pub euclidean_cluster_param : Text
euclidean_cluster_param =
    launcher_config_path
    ++ codes
        "/perception/object_recognition/detection/clustering/voxel_grid_based_euclidean_cluster.param.yaml"

abbrev pub compare_map_filter_param : Text
compare_map_filter_param =
    codes
      "src/universe/autoware_universe/perception/autoware_compare_map_segmentation/config/voxel_based_approximate_compare_map_filter.param.yaml"

abbrev pub detection_by_tracker_param : Text
detection_by_tracker_param =
    launcher_config_path
    ++ codes
        "/perception/object_recognition/detection/detection_by_tracker/detection_by_tracker.param.yaml"

abbrev pub obstacle_pointcloud_validator_param : Text
obstacle_pointcloud_validator_param =
    launcher_config_path
    ++ codes
        "/perception/object_recognition/detection/detected_object_validation/obstacle_pointcloud_based_validator.param.yaml"

abbrev pub object_lanelet_filter_param : Text
object_lanelet_filter_param =
    launcher_config_path
    ++ codes
        "/perception/object_recognition/detection/object_filter/object_lanelet_filter.param.yaml"

abbrev pub roi_cluster_fusion_param : Text
roi_cluster_fusion_param =
    launcher_config_path
    ++ codes
        "/perception/object_recognition/detection/image_projection_based_fusion/roi_cluster_fusion.param.yaml"

abbrev pub fusion_common_param : Text
fusion_common_param =
    launcher_config_path
    ++ codes
        "/perception/object_recognition/detection/image_projection_based_fusion/fusion_common.param.yaml"

abbrev pub map_based_prediction_param : Text
map_based_prediction_param =
    launcher_config_path
    ++ codes "/perception/object_recognition/prediction/map_based_prediction.param.yaml"

abbrev pub occupancy_grid_map_param : Text
occupancy_grid_map_param =
    launcher_config_path
    ++ codes "/perception/occupancy_grid_map/pointcloud_based_occupancy_grid_map.param.yaml"

abbrev pub occupancy_grid_map_updater_param : Text
occupancy_grid_map_updater_param =
    launcher_config_path
    ++ codes "/perception/occupancy_grid_map/binary_bayes_filter_updater.param.yaml"

abbrev pub traffic_light_map_based_detector_param : Text
traffic_light_map_based_detector_param =
    codes
      "src/universe/autoware_universe/perception/autoware_traffic_light_map_based_detector/config/traffic_light_map_based_detector.param.yaml"

abbrev pub traffic_light_arbiter_param : Text
traffic_light_arbiter_param =
    launcher_config_path
    ++ codes
        "/perception/traffic_light_recognition/traffic_light_arbiter/traffic_light_arbiter.param.yaml"

abbrev pub traffic_light_occlusion_predictor_param : Text
traffic_light_occlusion_predictor_param =
    launcher_config_path
    ++ codes
        "/perception/traffic_light_recognition/traffic_light_occlusion_predictor/traffic_light_occlusion_predictor.param.yaml"

abbrev pub crosswalk_traffic_light_estimator_param : Text
crosswalk_traffic_light_estimator_param =
    launcher_config_path
    ++ codes
        "/perception/traffic_light_recognition/crosswalk_traffic_light_estimator/crosswalk_traffic_light_estimator.param.yaml"

abbrev pub object_range_splitter_param : Text
object_range_splitter_param =
    codes
      "src/universe/autoware_universe/perception/autoware_object_range_splitter/config/object_range_splitter.param.yaml"

abbrev pub simple_object_merger_param : Text
simple_object_merger_param =
    codes
      "src/universe/autoware_universe/perception/autoware_simple_object_merger/config/simple_object_merger.param.yaml"

abbrev pub occupancy_grid_map_outlier_filter_param : Text
occupancy_grid_map_outlier_filter_param =
    launcher_config_path
    ++ codes
        "/perception/obstacle_segmentation/occupancy_grid_based_outlier_filter/occupancy_grid_map_outlier_filter.param.yaml"

abbrev pub tensorrt_yolox_param : Text
tensorrt_yolox_param =
    launcher_config_path
    ++ codes
        "/perception/traffic_light_recognition/tensorrt_yolox/yolox_traffic_light_detector.param.yaml"
