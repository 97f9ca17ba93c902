-- ===== src/Startup/Setups/System.antt =====
-- What the startup reactions load and add: the reactors that AutowareFederated.lf lists under System.
use lf_autoware.Base.{List, [], ◌∷◌}
use lf_autoware.Startup.{Setup, from_yaml}
use lf_autoware.Startup.Paths.System.{
  component_state_monitor_param, duplicated_node_checker_param, hazard_status_converter_param,
  mrm_comfortable_stop_operator_param, pipeline_latency_monitor_param,
  processing_time_checker_param,
}

abbrev pub component_state_monitor : {D : Type 0} → Setup D
component_state_monitor = record { loading = from_yaml component_state_monitor_param; extra = [] }

abbrev pub duplicated_node_checker : {D : Type 0} → Setup D
duplicated_node_checker = record { loading = from_yaml duplicated_node_checker_param; extra = [] }

abbrev pub hazard_status_converter : {D : Type 0} → Setup D
hazard_status_converter = record { loading = from_yaml hazard_status_converter_param; extra = [] }

abbrev pub mrm_comfortable_stop_operator : {D : Type 0} → Setup D
mrm_comfortable_stop_operator = record {
  loading = from_yaml mrm_comfortable_stop_operator_param;
  extra = [];
}

abbrev pub pipeline_latency_monitor : {D : Type 0} → Setup D
pipeline_latency_monitor = record { loading = from_yaml pipeline_latency_monitor_param; extra = [] }

abbrev pub processing_time_checker : {D : Type 0} → Setup D
processing_time_checker = record { loading = from_yaml processing_time_checker_param; extra = [] }

abbrev pub system_setups : {D : Type 0} → List (Setup D)
system_setups =
    component_state_monitor ∷ duplicated_node_checker ∷ hazard_status_converter
    ∷ mrm_comfortable_stop_operator ∷ pipeline_latency_monitor ∷ processing_time_checker ∷ []
