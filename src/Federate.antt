-- ===== src/Federate.antt =====
-- One federate's start: the generated preambles fed-gen/AutowareFederated/src/include/*_preamble.h
-- over the runtime that core/federated/federate.h declares.
pub mod Runtime
pub mod Preamble
pub mod Triggers
pub mod Neighbor
pub mod Table
pub mod Topology
pub mod Rendezvous
