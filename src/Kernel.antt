-- ===== src/Kernel.antt =====
-- The nucleus's memory (incl/types.h, incl/init.h, incl/const.h) and the runs of its functions.
pub mod Arch
pub mod Machine
pub mod Cmd
pub mod Rules
