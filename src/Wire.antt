-- ===== src/Wire.antt =====
-- The packed structs of src/common/mspmsg.h and src/samples/ublox-test/ublox.h, for the messages of a
-- flight controller and of a GPS receiver, beside the structs that the bindings and
-- src/common/mspmsg.vala declare for them. The build compiles src/common/mspmsg.vala, and the sample
-- program with ublox.vapi; it uses neither mspmsg.h nor mspmsg.vapi.
pub mod Layout
pub mod Msp
pub mod MspMore
pub mod MspBinding
pub mod MspBindingMore
pub mod MspVala
pub mod MspValaMore
pub mod Ublox
pub mod UbloxBinding
pub mod Sizes
pub mod Declared
mod Tests
