-- ===== src/ReadSb/Decode.antt =====
-- `decode_ac_pb` of src/mwp/decode_readsb.c. The unpacker is libprotobuf-c's and comes as an
-- argument, as do the outcome of `calloc` and the signedness of `char`, which the platform decides.
pub mod Name
pub mod Contents
pub mod Faults
pub mod Names
mod Tests
use mwptools.Common.{
  ℕ, zero, suc, ◌+◌, ◌%◌, Bool, true, false, not, ◌&&◌, ◌||◌, Option, none, some, List, [], ◌∷◌,
  length, set, replicate, get_elem?, ltb, ◌==◌, if◌then◌else◌,
}
use mwptools.Common.Result.{Result, ok, fault, null_pointer, past_end, ◌>>=◌}
use mwptools.ReadSb.Message.{
  ValidSource, AircraftMeta, AircraftsUpdate, Aircraft, blank, to_uint32, distance_undefined,
}

-- `s[j]` of a string: its terminator can be read, what lies behind cannot.
abbrev pub char_at : List ℕ → ℕ → Result ℕ
char_at [] zero = ok 0
char_at [] (suc j) = fault past_end
char_at (c ∷ s) zero = ok c
char_at (c ∷ s) (suc j) = char_at s j

-- `am->flight[j] > 31`; a byte from 128 on is negative where `char` is signed.
abbrev pub is_printable : Bool → ℕ → Bool
is_printable signed_char c = ltb 31 c && (not signed_char || ltb c 128)

abbrev pub clean : Bool → ℕ → ℕ
clean signed_char c = if is_printable signed_char c then c else 0

-- The loop over `j`, with the rounds that are left, and `ac->name[8] = 0` behind it.
pub read_name : Bool → List ℕ → ℕ → ℕ → Result (List ℕ)
read_name signed_char flight zero j = ok (0 ∷ [])
read_name signed_char flight (suc rounds) j = do
  c ← char_at flight j
  rest ← read_name signed_char flight rounds (j + 1)
  ok (clean signed_char c ∷ rest)

-- The body of `if (vs->lat > 0)`, on the element that `ac` points to.
pub fill : Bool → AircraftMeta → ValidSource → Aircraft → Result Aircraft
unfolding read_name
fill signed_char am vs ac = do
  name ← read_name signed_char am.flight 8 0
  ok (record ac {
    addr = am.addr;
    catx = am.category % 256;
    name = name;
    lat = am.lat;
    lon = am.lon;
    alt = if ltb 0 vs.altitude then am.alt_baro else ac.alt;
    speed = if ltb 0 vs.gs then am.gs else ac.speed;
    hdg = if ltb 0 vs.mag_heading then to_uint32 am.mag_heading else ac.hdg;
    srange = if am.distance == 0 then distance_undefined else am.distance;
    seen_tm = am.seen;
    seen_pos = am.seen_pos;
  })

-- The array (`none` is NULL), the index that `ac` points to, and `anac`.
pub record Cursor : Type 0 where
  pub acs : Option (List Aircraft)
  pub ac : ℕ
  pub anac : ℕ

-- The element at an index of an array. To reach it through NULL or past the end is a fault.
abbrev pub element : Option (List Aircraft) → ℕ → Result Aircraft
element none i = fault null_pointer
element (some acs) i = elim (get_elem? acs i) [ none ↦ fault past_end | some a ↦ ok a ]

abbrev pub store : Option (List Aircraft) → ℕ → Aircraft → Option (List Aircraft)
store none i a = none
store (some acs) i a = some (set acs i a)

-- The element is written, `anac++` and `ac++`.
abbrev pub put : Cursor → Aircraft → Cursor
put c a = record { acs = store c.acs c.ac a; ac = c.ac + 1; anac = c.anac + 1 }

-- One round of the loop over the aircraft, on `vs = am->valid_source`.
pub visit : Bool → AircraftMeta → Option ValidSource → Cursor → Result Cursor
unfolding fill
visit signed_char am none c = fault null_pointer
visit signed_char am (some vs) c =
    if ltb 0 vs.lat
    then (do ac ← element c.acs c.ac; filled ← fill signed_char am vs ac; ok (put c filled))
    else ok c

pub visit_all : Bool → List AircraftMeta → Cursor → Result Cursor
visit_all signed_char [] c = ok c
visit_all signed_char (am ∷ ams) c =
    visit signed_char am am.valid_source c >>= λ c'. visit_all signed_char ams c'

-- `*acs` (`none` is NULL), `*nac`, the value returned, and whether the unpacked message was freed.
pub record Decoded : Type 0 where
  pub acs : Option (List Aircraft)
  pub nac : ℕ
  pub anac : ℕ
  pub freed : Bool

abbrev pub nothing : Decoded
nothing = record { acs = none; nac = 0; anac = 0; freed = false }

-- What follows the early return. The code goes on where `calloc` fails: it tests `acs`, which is
-- never NULL, and not `*acs`.
pub decode_update : Bool → Bool → List AircraftMeta → Result Decoded
unfolding visit_all visit
decode_update signed_char allocated [] = ok nothing
decode_update signed_char allocated (am ∷ ams) =
    let n = length (am ∷ ams) in
    let fresh : Option (List Aircraft) = if allocated then some (replicate n blank) else none in
    visit_all signed_char (am ∷ ams) (record { acs = fresh; ac = 0; anac = 0 }) >>= λ c.
    ok (record { acs = c.acs; nac = n; anac = c.anac; freed = true })

pub decode_ac_pb : (List ℕ → Option AircraftsUpdate) → Bool → Bool → List ℕ → Result Decoded
unfolding decode_update
decode_ac_pb unpack signed_char allocated buf = elim (unpack buf) [
  | none ↦ ok nothing
  | some au ↦ decode_update signed_char allocated au.aircraft
]
