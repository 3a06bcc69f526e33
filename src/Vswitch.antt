-- ===== src/Vswitch.antt =====
-- internal/resources/vswitch: the resource hyperv_virtual_switch.
pub mod Model
pub mod Crud
pub mod Network
pub mod Validators
mod Tests
