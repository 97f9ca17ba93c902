-- ===== src/Startup/Paths/System.antt =====
-- Parameter paths of lf-src/lf-include/constants.hpp: system.
use lf_autoware.Base.{◌++◌, Text, codes}
use lf_autoware.Startup.Paths.Common.{launcher_config_path}

abbrev pub mrm_comfortable_stop_operator_param : Text
mrm_comfortable_stop_operator_param =
    launcher_config_path
    ++ codes "/system/mrm_comfortable_stop_operator/mrm_comfortable_stop_operator.param.yaml"

abbrev pub hazard_status_converter_param : Text
hazard_status_converter_param =
    codes
      "src/universe/autoware_universe/system/autoware_hazard_status_converter/config/hazard_status_converter.param.yaml"

abbrev pub duplicated_node_checker_param : Text
duplicated_node_checker_param =
    launcher_config_path
    ++ codes "/system/duplicated_node_checker/duplicated_node_checker.param.yaml"

abbrev pub processing_time_checker_param : Text
processing_time_checker_param =
    launcher_config_path
    ++ codes "/system/processing_time_checker/processing_time_checker.param.yaml"

abbrev pub pipeline_latency_monitor_param : Text
pipeline_latency_monitor_param =
    launcher_config_path
    ++ codes "/system/pipeline_latency_monitor/pipeline_latency_monitor.param.yaml"

abbrev pub component_state_monitor_param : Text
component_state_monitor_param =
    launcher_config_path ++ codes "/system/component_state_monitor/topics.yaml"
