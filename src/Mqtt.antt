-- ===== src/Mqtt.antt =====
-- The MQTT client of src/clib/paho_wrapper.c.
pub mod Client
pub mod Setup
pub mod Poll
mod Tests
