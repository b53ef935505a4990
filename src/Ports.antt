-- ===== src/Ports.antt =====
-- The discovery of serial devices of src/clib/poll_serials.c, a module for each platform that the
-- file is written for.
pub mod Devs
pub mod Listing
pub mod Darwin
pub mod Linux
pub mod FreeBsd
pub mod Windows
mod Tests
