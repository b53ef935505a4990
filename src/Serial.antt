-- ===== src/Serial.antt =====
-- The serial ports of src/clib/rserial.c: on POSIX systems the modes that opening and closing set, the
-- bounds of a read, and the difference of two times; on Windows the settings of a port and transfers.
pub mod Modes
pub mod Open
pub mod Session
pub mod Transfer
pub mod Clock
pub mod Windows
pub mod Settings
pub mod ErrorText
mod Tests
