-- ===== src/Disk.antt =====
-- internal/resources/vhd: the resource hyperv_vhd.
pub mod Model
pub mod Crud
pub mod Validators
mod Tests
