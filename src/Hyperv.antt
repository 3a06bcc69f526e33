-- ===== src/Hyperv.antt =====
-- internal/hyperv: the typed client between the resources and the scripts.
pub mod Dto
pub mod Errors
pub mod Client
pub mod Clock
pub mod Script
pub mod Session
pub mod Verify
pub mod Disks
pub mod Switches
pub mod Images
pub mod Vms
pub mod Handling
pub mod Mappings
pub mod Tests
