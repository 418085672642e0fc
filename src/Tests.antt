-- ===== src/Tests.antt =====
-- Runs of the model on small inputs, and the theorems applied to them.
pub mod Frames
pub mod Requests
pub mod Circuits
pub mod Slots
pub mod Selection
pub mod Errors
pub mod Keys
pub mod Routes
pub mod Restart
pub mod Failover
pub mod Refresh
pub mod Tools
pub mod Inventory
pub mod Thinking
