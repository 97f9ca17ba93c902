-- ===== src/Startup/Setups/Sensing.antt =====
-- What the startup reactions load and add: the reactors that AutowareFederated.lf lists under Sensing.
use lf_autoware.Base.{List, [], ◌∷◌}
use lf_autoware.Startup.{Setup, from_yaml, from_yamls}
use lf_autoware.Startup.Paths.Common.{crop_box_filter_param, vehicle_info_param}
use lf_autoware.Startup.Paths.Sensing.{
  approximate_downsample_filter_param, image_decompressor_param, imu_corrector_param,
  passthrough_filter_param, random_downsample_filter_param, vehicle_velocity_converter_param,
  voxel_grid_outlier_filter_param,
}

abbrev pub approximate_downsample_filter : {D : Type 0} → Setup D
approximate_downsample_filter = record {
  loading = from_yaml approximate_downsample_filter_param;
  extra = [];
}

abbrev pub crop_box_filter : {D : Type 0} → Setup D
crop_box_filter = record {
  loading = from_yamls (crop_box_filter_param ∷ vehicle_info_param ∷ []);
  extra = [];
}

abbrev pub image_decompressor : {D : Type 0} → Setup D
image_decompressor = record { loading = from_yaml image_decompressor_param; extra = [] }

abbrev pub imu_corrector : {D : Type 0} → Setup D
imu_corrector = record { loading = from_yaml imu_corrector_param; extra = [] }

abbrev pub passthrough_filter : {D : Type 0} → Setup D
passthrough_filter = record { loading = from_yaml passthrough_filter_param; extra = [] }

abbrev pub random_downsample_filter : {D : Type 0} → Setup D
random_downsample_filter = record { loading = from_yaml random_downsample_filter_param; extra = [] }

abbrev pub vehicle_velocity_converter : {D : Type 0} → Setup D
vehicle_velocity_converter = record {
  loading = from_yaml vehicle_velocity_converter_param;
  extra = [];
}

abbrev pub voxel_grid_outlier_filter : {D : Type 0} → Setup D
voxel_grid_outlier_filter = record {
  loading = from_yaml voxel_grid_outlier_filter_param;
  extra = [];
}

abbrev pub sensing_setups : {D : Type 0} → List (Setup D)
sensing_setups =
    approximate_downsample_filter ∷ crop_box_filter ∷ image_decompressor ∷ imu_corrector
    ∷ passthrough_filter ∷ random_downsample_filter ∷ vehicle_velocity_converter
    ∷ voxel_grid_outlier_filter ∷ []
