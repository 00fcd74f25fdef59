-- ===== src/Tests.antt =====
-- Runs of the model at concrete inputs, and that the theorems apply there.
pub mod Values
pub mod Scenario
mod Turns
mod Screens
mod Parts
mod Paths
mod Hub
mod Decoding
mod Boot
mod Device
mod Following
mod Guest
mod Typed
mod Maps
