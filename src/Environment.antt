-- ===== src/Environment.antt =====
-- What the program asks its surroundings: the user's locale of src/clib/getloc.c, how a child process
-- ended, of src/common/posix_psmisc.c, and the graphics driver of src/clib/mwp_glinfo.c.
pub mod Locale
pub mod Status
pub mod Graphics
mod Tests
