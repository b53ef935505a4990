-- ===== src/ReadSb/Message.antt =====
-- The unpacked messages of src/mwp/readsb.pb-c.h, with the members that the decoder reads, and
-- `readsb_pb_t` of src/mwp/decode_readsb.h. A double is carried as its bit pattern, since the
-- decoder only copies it. A C string is its bytes, without the terminating NUL.
use mwptools.Common.{ℕ, ◌-◌, ◌%◌, ◌^◌, Option, List, replicate}
use mwptools.Common.Int.{ℤ, pos, negsuc}

-- `AircraftMeta__ValidSource`
pub record ValidSource : Type 0 where
  pub lat : ℕ
  pub altitude : ℕ
  pub gs : ℕ
  pub mag_heading : ℕ

-- `AircraftMeta`; `valid_source` is a pointer, NULL where the sender left the submessage out.
pub record AircraftMeta : Type 0 where
  pub addr : ℕ
  pub flight : List ℕ
  pub category : ℕ
  pub alt_baro : ℤ
  pub mag_heading : ℤ
  pub lat : ℕ
  pub lon : ℕ
  pub seen : ℕ
  pub distance : ℕ
  pub gs : ℕ
  pub seen_pos : ℕ
  pub valid_source : Option ValidSource

-- `AircraftsUpdate`; `n_aircraft` is the length of the list.
pub record AircraftsUpdate : Type 0 where
  pub aircraft : List AircraftMeta

-- `readsb_pb_t`
pub record Aircraft : Type 0 where
  pub addr : ℕ
  pub alt : ℤ
  pub hdg : ℕ
  pub speed : ℕ
  pub seen_pos : ℕ
  pub srange : ℕ
  pub lat : ℕ
  pub lon : ℕ
  pub catx : ℕ
  pub name : List ℕ
  pub seen_tm : ℕ

-- One element of a fresh `calloc`: every byte is zero.
abbrev pub blank : Aircraft
blank = record {
  addr = 0;
  alt = pos 0;
  hdg = 0;
  speed = 0;
  seen_pos = 0;
  srange = 0;
  lat = 0;
  lon = 0;
  catx = 0;
  name = replicate 9 0;
  seen_tm = 0;
}

-- The conversion of an int32_t to a uint32_t.
abbrev pub to_uint32 : ℤ → ℕ
to_uint32 (pos n) = n % 2 ^ 32
to_uint32 (negsuc n) = 2 ^ 32 - 1 - n % 2 ^ 32

-- `READ_SB_DISTNDEF`
abbrev pub distance_undefined : ℕ
distance_undefined = 0xffff_ffff
