-- ===== src/Vm.antt =====
-- internal/resources/vm: the hyperv_vm resource.
pub mod Diff
pub mod Model
pub mod Slots
pub mod Input
pub mod Reconcile
pub mod Hydrate
pub mod Wait
pub mod Effects
pub mod Handlers
pub mod Crud
pub mod Upgrade
pub mod Validators
mod Fixtures
mod Tests
mod OrderTests
mod PlanTests
