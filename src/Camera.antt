-- ===== src/Camera.antt =====
-- The list of cameras of src/wcam/wcam.cpp, on Windows.
pub mod Enumerate
pub mod Devices
pub mod Listed
mod Tests
