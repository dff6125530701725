-- ===== src/Tests.antt =====
-- Runs of the model on concrete inputs.
pub mod Samples
mod Nodes
mod Feeds
mod Services
mod Loops
mod Shadows
mod Commands
