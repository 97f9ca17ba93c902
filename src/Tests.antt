-- ===== src/Tests.antt =====
-- Concrete runs: instances of the theorems, and small checks of the models.
mod Simulation
mod Derivations
mod Commands
mod MapLoading
mod Routes
mod Start
mod Startups
mod Federation
mod Files
mod Wirings
mod Trajectories
mod Ticks
mod Schedules
mod Centerpoints
