-- ===== src/Config.antt =====
-- How a federate finds its parameters: lf-src/lf-include/utils.hpp.
pub mod Substitute
pub mod Yaml
pub mod Process
pub mod Options
pub mod Resolve
pub mod Spin
