-- ===== src/Examples.antt =====
-- The theorems at concrete inputs, and tests of the model.
pub mod Links
pub mod Notifications
pub mod Filters
pub mod Traffic
pub mod Sessions
pub mod Creation
pub mod Scripts
pub mod Spawning
pub mod Chain
pub mod Wires
pub mod Calls
pub mod Values
pub mod Updates
pub mod Clients
