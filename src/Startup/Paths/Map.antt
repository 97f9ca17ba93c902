-- ===== src/Startup/Paths/Map.antt =====
-- Parameter paths of lf-src/lf-include/constants.hpp: map.
use lf_autoware.Base.{◌++◌, Text, codes}
use lf_autoware.Startup.Paths.Common.{launcher_config_path}

abbrev pub lanelet2_map_loader_param : Text
lanelet2_map_loader_param = launcher_config_path ++ codes "/map/lanelet2_map_loader.param.yaml"
