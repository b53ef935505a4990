-- ===== src/ReadSb/Decode/Tests.antt =====
-- Runs of `decode_ac_pb` (src/mwp/decode_readsb.c), and its theorems at concrete messages.
use mwptools.Common.{
  ℕ, ◌≡◌, refl, true, false, Option, none, some, List, [], ◌∷◌, length, arith, inl, ◌≤◌, All,
}
use mwptools.Common.Int.{negsuc}
use mwptools.Common.CString.{codes}
use mwptools.ReadSb.Message.{ValidSource, AircraftMeta, AircraftsUpdate, Aircraft, blank}
use mwptools.Common.Result.{ok, fault, null_pointer, past_end}
use mwptools.ReadSb.Decode.{Decoded, decode_ac_pb}
use mwptools.ReadSb.Decode.Contents.{decode_ac_pb-contents}
use mwptools.ReadSb.Decode.Faults.{decode_ac_pb-fault, decode_ac_pb-no_array}
use mwptools.ReadSb.Decode.Names.{IsText, decode_ac_pb-IsText}

abbrev positioned : ValidSource
positioned = record { lat = 2; altitude = 2; gs = 0; mag_heading = 1 }

abbrev silent : ValidSource
silent = record { lat = 0; altitude = 2; gs = 2; mag_heading = 1 }

abbrev meta : List ℕ → Option ValidSource → AircraftMeta
meta flight source = record {
  addr = 0x4ca2d1;
  flight = flight;
  category = 0x1a3;
  alt_baro = negsuc 24;
  mag_heading = negsuc 0;
  lat = 51;
  lon = 7;
  seen = 1_600_000_000_000;
  distance = 0;
  gs = 310;
  seen_pos = 4;
  valid_source = source;
}

abbrev update : AircraftsUpdate
update = record {
  aircraft =
      meta (codes "EZY12") (some silent)
      ∷ meta (codes "RYR\n3ABC") (some positioned)
      ∷ meta (codes "EIN104 ") (some silent)
      ∷ [];
}

abbrev ryanair : Aircraft
ryanair = record {
  addr = 0x4ca2d1;
  alt = negsuc 24;
  hdg = 0xffff_ffff;
  speed = 0;
  seen_pos = 4;
  srange = 0xffff_ffff;
  lat = 51;
  lon = 7;
  catx = 0xa3;
  name = b'R' ∷ b'Y' ∷ b'R' ∷ 0 ∷ b'3' ∷ b'A' ∷ b'B' ∷ b'C' ∷ 0 ∷ [];
  seen_tm = 1_600_000_000_000;
}

abbrev unpack_as : Option AircraftsUpdate → List ℕ → Option AircraftsUpdate
unpack_as au buf = au

one_of_three :
    decode_ac_pb (unpack_as (some update)) true true (1 ∷ [])
    ≡ ok (record { acs = some (ryanair ∷ blank ∷ blank ∷ []); nac = 3; anac = 1; freed = true })
unfolding decode_ac_pb
one_of_three = refl

decode_ac_pb-contents_example :
    decode_ac_pb (unpack_as (some update)) true true (1 ∷ [])
    ≡ ok (record { acs = some (ryanair ∷ blank ∷ blank ∷ []); nac = 3; anac = 1; freed = true })
decode_ac_pb-contents_example =
    decode_ac_pb-contents (unpack_as (some update)) true (1 ∷ []) {au = update} refl (ground arith)
      refl

decode_ac_pb-IsText_example :
    (d : Decoded) × (xs : List Aircraft) × (decode_ac_pb
        (unpack_as (some update))
        true
        true
        (1 ∷ [])
      ≡ ok d)
    × (d.acs ≡ some xs)
    × (length xs ≡ d.nac)
    × (d.anac ≤ d.nac)
    × All (λ a. IsText true a.name) xs
decode_ac_pb-IsText_example =
    decode_ac_pb-IsText (unpack_as (some update)) true (1 ∷ []) {au = update} refl (ground arith)
      refl

-- A short call sign behind an aircraft that can be reported.
abbrev short : AircraftsUpdate
short = record {
  aircraft =
      meta (codes "RYR3ABC") (some positioned)
      ∷ meta (codes "EI104") (some positioned)
      ∷ meta [] none
      ∷ [];
}

decode_ac_pb-fault_example :
    decode_ac_pb (unpack_as (some short)) false true (1 ∷ []) ≡ fault past_end
decode_ac_pb-fault_example =
    decode_ac_pb-fault (unpack_as (some short)) false (1 ∷ []) {au = short} refl refl

-- A library that unpacks nothing from no bytes.
abbrev unpack_some : List ℕ → Option AircraftsUpdate
unpack_some [] = none
unpack_some (b ∷ bs) = some update

decode_ac_pb-no_array_example :
    (decode_ac_pb unpack_some true true []
      ≡ ok (record { acs = none; nac = 0; anac = 0; freed = false }))
    × (decode_ac_pb unpack_some true false (1 ∷ []) ≡ fault null_pointer)
decode_ac_pb-no_array_example =
    decode_ac_pb-no_array unpack_some true true [] (1 ∷ []) {au = update} (inl refl) refl
      (ground arith)
