-- ===== src/Tests.antt =====
-- A machine to run the model on, and instances of the theorems.
mod Fixture
mod Lists
mod Blocks
mod Nucleus
mod Semaphores
mod Devices
pub mod Orders
pub mod Endings
