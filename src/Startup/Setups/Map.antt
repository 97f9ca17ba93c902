-- ===== src/Startup/Setups/Map.antt =====
-- What the startup reactions load and add: the reactors that AutowareFederated.lf lists under Map.
use lf_autoware.Base.{List, [], ◌∷◌}
use lf_autoware.Startup.{Setup, from_yaml}
use lf_autoware.Startup.Paths.Map.{lanelet2_map_loader_param}

abbrev pub lanelet2_map_loader : {D : Type 0} → Setup D
lanelet2_map_loader = record { loading = from_yaml lanelet2_map_loader_param; extra = [] }

abbrev pub map_setups : {D : Type 0} → List (Setup D)
map_setups = lanelet2_map_loader ∷ []
