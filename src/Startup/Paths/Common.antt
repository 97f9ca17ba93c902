-- ===== src/Startup/Paths/Common.antt =====
-- Parameter paths of lf-src/lf-include/constants.hpp: those of several parts.
use lf_autoware.Base.{Text, codes}

abbrev pub launcher_config_path : Text
launcher_config_path = codes "src/launcher/autoware_launch/autoware_launch/config"

abbrev pub vehicle_info_param : Text
vehicle_info_param =
    codes
      "src/launcher/autoware_launch/vehicle/awsim_labs_vehicle_launch/awsim_labs_vehicle_description/config/vehicle_info.param.yaml"

abbrev pub crop_box_filter_param : Text
crop_box_filter_param =
    codes
      "src/core/autoware_core/sensing/autoware_crop_box_filter/config/crop_box_filter_node.param.yaml"
