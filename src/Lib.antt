-- ===== src/Lib.antt =====
-- A verification library for the C code of mwptools. The ground station itself is written in Vala;
-- the C files do what Vala cannot: they decode readsb's protobuf messages, open serial ports and
-- Bluetooth sockets, list devices, cameras and processes, start and suspend Windows processes, talk
-- to an MQTT broker, and load speech engines. The Vala code calls each of them through a few
-- functions, and they share no state.
--
-- - Common: lists and integers over the native numbers, C strings as lists of bytes, and an array that
--   grows by 16 cells, which the process search and the list of cameras both fill.
-- - ReadSb (src/mwp/decode_readsb.c, src/mwp/readsb.pb-c.c and .h): `decode_ac_pb` turns an unpacked
--   message into an array of `readsb_pb_t`. ReadSb.Message has the structs, ReadSb.Decode the decoder
--   with its array as a list and its undefined behaviour as a fault; ReadSb.Descriptor and
--   ReadSb.Tables have the descriptor tables that libprotobuf-c works from, beside the structs of
--   readsb.pb-c.h and the declarations of src/samples/adsb-extra/readsb.proto; ReadSb.Messages has the
--   initial values and the functions that pack and unpack.
-- - Speech (src/mwp/speech_wrapper.c): `speech_set_api`, `speech_init`, `speech_say` and
--   `speech_close` call through three static pointers into the functions of espeak, speechd or flite.
--   Speech.State has the static variables, Speech.Espeak, Speech.Speechd and Speech.Flite the engines'
--   functions, Speech.Dispatch the four functions themselves; the others are proofs, Speech.Heard
--   against the texts that the requests alone promise. Speech.Sample is the test program
--   src/samples/flite/ftest.c.
-- - Processes (src/common/pid_from_name.c): `pid_from_name` for Linux, Windows, and FreeBSD and macOS,
--   over a growing array. The array `buf` is a list of 4096 bytes whose overrun is
--   a fault. The retry loop of Processes.Bsd runs on the list of what its rounds are given.
-- - Ports (src/clib/poll_serials.c): `check_ports`, `check_insert_name` and `check_delete_name` for
--   macOS, Linux, FreeBSD and Windows. Ports.Devs has the array of names, with a write past its end as
--   a fault, and Ports.Listing the two passes over /dev that macOS and Linux share. Loops run on the
--   list of names, or on the number of rounds that the code gives.
-- - Serial (src/clib/rserial.c): Serial.Modes has `struct termios` as a set of modes and fields,
--   Serial.Open `set_fd_speed`, `open_serial` and `close_serial` of the POSIX systems on a line that
--   counts its open descriptors, Serial.Transfer `read_serial` and `get_error_text`, Serial.Clock
--   `timespec_diff`; Serial.Windows has the same functions for Windows, on a port with its `DCB`.
-- - Bluetooth (src/clib/btdev.c): `_mwp_str2ba` reads an address, Bluetooth.Connect has the socket.
-- - Launch (src/common/winproc.c): `create_win_process`, the pipes and handles that it opens and closes,
--   and Launch.Wait with `waitproc` and `proc_kill`.
-- - Suspend (src/common/win_suspend_resume.c, src/clib/winidle.c): Suspend.Exports has the functions
--   that look two functions of NTDLL up when they first need them, on a state with both pointers, the
--   open handles and the calls made; Suspend.Idle `inhibit` and `uninhibit`.
-- - Camera (src/wcam/wcam.cpp): Camera.Enumerate has `get_cameras` and what it calls, with the references
--   to objects of the system and the texts that are allocated as numbers.
-- - Wire (src/common/mspmsg.h, src/samples/ublox-test/ublox.h): the packed structs for the messages of
--   a flight controller or a GPS receiver, as lists of fields, beside the structs of mspmsg.vapi,
--   ublox.vapi and mspmsg.vala and the sizes of `MSize`. The build compiles mspmsg.vala, which declares
--   its own structs; nothing in it uses mspmsg.h.
-- - Mqtt (src/clib/paho_wrapper.c): Mqtt.Client has `paho_wrapper_setup`, which makes and connects a
--   client, and `paho_wrapper_poll_message`, with the library's clients and messages counted.
-- - Environment (src/clib/getloc.c, src/common/posix_psmisc.c, src/clib/mwp_glinfo.c): the user's locale,
--   what a wait status says, and the strings of the graphics driver.
--
-- Code outside the repository is an argument: the unpacker of libprotobuf-c, the outcome of an
-- allocation, the signedness of `char`, the symbols of the speech libraries, the files under /proc,
-- the regular expression of a search, the outcome of `stat`, the values of the registry, whether a
-- call on a port or a socket succeeds or a process is created, NTDLL, the cameras and their
-- properties, the MQTT library, the environment's variables, libGL. Doubles that are only copied are their
-- bit patterns.
-- Not modelled: functions that only pass their arguments on to a library, other than those of
-- readsb.pb-c.c; the test programs under `#ifdef TEST`; of src/clib/rserial.c the measure of the CPU
-- load; of src/common/mspmsg.vala the numbers of the messages; the other files of src/clib; the
-- sample programs, but for ublox.h and ftest.c.
pub mod Common
pub mod ReadSb
pub mod Speech
pub mod Processes
pub mod Ports
pub mod Serial
pub mod Bluetooth
pub mod Launch
pub mod Wire
pub mod Camera
pub mod Suspend
pub mod Mqtt
pub mod Environment
