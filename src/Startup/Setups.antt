-- ===== src/Startup/Setups.antt =====
-- The startup reactions of the reactors (lf-src/*/*_main.lf) in one list.
pub mod Control
pub mod Localization
pub mod Map
pub mod Others
pub mod Perception
pub mod Perception2
pub mod Planning
pub mod Planning2
pub mod Sensing
pub mod System
use lf_autoware.Base.{List, ◌++◌}
use lf_autoware.Startup.{Setup}
use lf_autoware.Startup.Setups.Control.{control_setups}
use lf_autoware.Startup.Setups.Localization.{localization_setups}
use lf_autoware.Startup.Setups.Map.{map_setups}
use lf_autoware.Startup.Setups.Others.{others_setups}
use lf_autoware.Startup.Setups.Perception.{perception_setups}
use lf_autoware.Startup.Setups.Perception2.{perception2_setups}
use lf_autoware.Startup.Setups.Planning.{planning_setups}
use lf_autoware.Startup.Setups.Planning2.{planning2_setups}
use lf_autoware.Startup.Setups.Sensing.{sensing_setups}
use lf_autoware.Startup.Setups.System.{system_setups}

abbrev pub setups : {D : Type 0} → List (Setup D)
setups =
    control_setups ++ localization_setups ++ map_setups ++ others_setups ++ perception_setups
    ++ perception2_setups ++ planning_setups ++ planning2_setups ++ sensing_setups ++ system_setups
