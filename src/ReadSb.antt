-- ===== src/ReadSb.antt =====
-- The readsb decoder of src/mwp/decode_readsb.c: a protobuf message of tracked aircraft becomes an
-- array of `readsb_pb_t`; and the protobuf messages of src/mwp/readsb.pb-c.c that it works on.
pub mod Message
pub mod Decode
pub mod Descriptor
pub mod Tables
pub mod Messages
