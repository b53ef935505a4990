-- ===== src/Suspend.antt =====
-- How processes are suspended on Windows, of src/common/win_suspend_resume.c, and how the screen saver
-- is held off, of src/clib/winidle.c.
pub mod Exports
pub mod Lookup
pub mod Idle
mod Tests
