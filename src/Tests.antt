-- ===== src/Tests.antt =====
-- Runs of the model on concrete messages, and the theorems at concrete inputs.
mod Frames
pub mod Bodies
pub mod Sessions
mod Handlers
pub mod Connections
pub mod Devices
mod Settings
mod Servers
pub mod Systems
pub mod Journeys
mod Others
