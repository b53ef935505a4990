-- ===== src/Processes.antt =====
-- The search for processes by name of src/common/pid_from_name.c, a module for each platform that
-- the file is written for, over the growing array that all three fill.
pub mod Pids
pub mod Linux
pub mod Windows
pub mod Bsd
mod Tests
