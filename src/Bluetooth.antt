-- ===== src/Bluetooth.antt =====
-- The Bluetooth sockets of src/clib/btdev.c: the address that a text stands for, and the connection.
pub mod Address
pub mod RoundTrip
pub mod Connect
mod Tests
