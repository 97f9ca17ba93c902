-- ===== src/Startup/Paths.antt =====
-- The paths of the parameter files, under the home directory (lf-src/lf-include/constants.hpp).
pub mod Common
pub mod Control
pub mod Further
pub mod Localization
pub mod Map
pub mod Others
pub mod Perception
pub mod Planning
pub mod Planning2
pub mod Sensing
pub mod System
