-- ===== src/Speech.antt =====
-- The speech wrapper of src/mwp/speech_wrapper.c: which engine's functions the three pointers
-- `_speech_init`, `_speech_say` and `_speech_close` hold, and what the engines' shared libraries do
-- to the file's static variables. A library that GModule loads is an argument: which of its symbols
-- are there, and what its functions return. Sample and Lines are about the test program
-- src/samples/flite/ftest.c.
pub mod State
pub mod Espeak
pub mod Speechd
pub mod Flite
pub mod Sample
pub mod Lines
pub mod Dispatch
pub mod Ready
pub mod Apis
pub mod Voices
pub mod Starts
pub mod Speaker
pub mod Heard
mod Tests
mod SampleTests
pub mod Safety
