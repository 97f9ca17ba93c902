-- ===== src/Startup/Paths/Sensing.antt =====
-- Parameter paths of lf-src/lf-include/constants.hpp: sensing.
use lf_autoware.Base.{Text, codes}

abbrev pub imu_corrector_param : Text
imu_corrector_param =
    codes
      "src/universe/autoware_universe/sensing/autoware_imu_corrector/config/imu_corrector.param.yaml"

abbrev pub vehicle_velocity_converter_param : Text
vehicle_velocity_converter_param =
    codes
      "src/core/autoware_core/sensing/autoware_vehicle_velocity_converter/config/vehicle_velocity_converter.param.yaml"

abbrev pub random_downsample_filter_param : Text
random_downsample_filter_param =
    codes
      "src/universe/autoware_universe/sensing/autoware_pointcloud_preprocessor/config/random_downsample_filter_node.param.yaml"

abbrev pub passthrough_filter_param : Text
passthrough_filter_param =
    codes
      "src/universe/autoware_universe/sensing/autoware_pointcloud_preprocessor/config/passthrough_filter_uint16_node.param.yaml"

abbrev pub voxel_grid_outlier_filter_param : Text
voxel_grid_outlier_filter_param =
    codes
      "src/universe/autoware_universe/sensing/autoware_pointcloud_preprocessor/config/voxel_grid_outlier_filter_node.param.yaml"

abbrev pub approximate_downsample_filter_param : Text
approximate_downsample_filter_param =
    codes
      "src/universe/autoware_universe/sensing/autoware_pointcloud_preprocessor/config/approximate_downsample_filter_node.param.yaml"

abbrev pub image_decompressor_param : Text
image_decompressor_param =
    codes
      "src/universe/autoware_universe/sensing/autoware_image_transport_decompressor/config/image_transport_decompressor.param.yaml"
