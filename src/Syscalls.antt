-- ===== src/Syscalls.antt =====
-- The system calls of src/exceptions.c.
pub mod Process
pub mod Semop
pub mod Areas
pub mod Device
pub mod Pid
pub mod Create
pub mod Free
pub mod Wake
pub mod Waiters
pub mod Signal
pub mod Grant
pub mod Park
