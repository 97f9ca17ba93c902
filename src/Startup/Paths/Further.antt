-- ===== src/Startup/Paths/Further.antt =====
-- Parameter paths of lf-src/lf-include/constants.hpp: reactors that compute some of their parameters,
-- and system_monitor.
use lf_autoware.Base.{◌++◌, Text, codes}
use lf_autoware.Startup.Paths.Common.{launcher_config_path}

abbrev pub control_validator_param : Text
control_validator_param =
    launcher_config_path ++ codes "/control/control_validator/control_validator.param.yaml"

abbrev pub multi_object_tracker_param : Text
multi_object_tracker_param =
    launcher_config_path
    ++ codes
        "/perception/object_recognition/tracking/multi_object_tracker/multi_object_tracker_node.param.yaml"

abbrev pub multi_object_tracker_data_association_param : Text
multi_object_tracker_data_association_param =
    launcher_config_path
    ++ codes
        "/perception/object_recognition/tracking/multi_object_tracker/data_association_matrix.param.yaml"

abbrev pub multi_object_tracker_input_channels_param : Text
multi_object_tracker_input_channels_param =
    launcher_config_path
    ++ codes
        "/perception/object_recognition/tracking/multi_object_tracker/input_channels.param.yaml"

abbrev pub traffic_light_classifier_param : Text
traffic_light_classifier_param =
    launcher_config_path
    ++ codes
        "/perception/traffic_light_recognition/traffic_light_classifier/car_traffic_light_classifier.param.yaml"

abbrev pub map_projection_loader_param : Text
map_projection_loader_param =
    codes
      "src/core/autoware_core/map/autoware_map_projection_loader/config/map_projection_loader.param.yaml"

abbrev pub diagnostic_aggregator_param : Text
diagnostic_aggregator_param =
    codes
      "src/universe/autoware_universe/system/autoware_diagnostic_graph_aggregator/config/default.param.yaml"

abbrev pub diagnostic_aggregator_graph_param : Text
diagnostic_aggregator_graph_param =
    launcher_config_path ++ codes "/system/diagnostics/autoware-main.yaml"

abbrev pub system_monitor_cpu_param : Text
system_monitor_cpu_param =
    launcher_config_path ++ codes "/system/system_monitor/cpu_monitor.param.yaml"

abbrev pub system_monitor_gpu_param : Text
system_monitor_gpu_param =
    launcher_config_path ++ codes "/system/system_monitor/gpu_monitor.param.yaml"

abbrev pub system_monitor_hdd_param : Text
system_monitor_hdd_param =
    launcher_config_path ++ codes "/system/system_monitor/hdd_monitor.param.yaml"

abbrev pub system_monitor_mem_param : Text
system_monitor_mem_param =
    launcher_config_path ++ codes "/system/system_monitor/mem_monitor.param.yaml"

abbrev pub system_monitor_net_param : Text
system_monitor_net_param =
    launcher_config_path ++ codes "/system/system_monitor/net_monitor.param.yaml"

abbrev pub system_monitor_ntp_param : Text
system_monitor_ntp_param =
    launcher_config_path ++ codes "/system/system_monitor/ntp_monitor.param.yaml"

abbrev pub system_monitor_process_param : Text
system_monitor_process_param =
    launcher_config_path ++ codes "/system/system_monitor/process_monitor.param.yaml"

abbrev pub system_monitor_voltage_param : Text
system_monitor_voltage_param =
    launcher_config_path ++ codes "/system/system_monitor/voltage_monitor.param.yaml"
