-- ===== src/Launch.antt =====
-- Windows processes of src/common/winproc.c: the flags of `ProcessLaunch`, the ends of the pipes that
-- `create_win_process` opens and closes, and the wait for the end of a process.
pub mod Create
pub mod Ends
pub mod Wait
mod Tests
