-- ===== src/ReadSb/Decode/Contents.antt =====
-- What `decode_ac_pb` of src/mwp/decode_readsb.c puts into its array, and when it runs into
-- undefined behaviour.
use mwptools.Common.{
  ℕ, zero, suc, ◌-◌, ◌%◌, ◌≤◌, ◌<◌, ◌≡◌, ◌≢◌, refl, ap, ◌∙◌, Bool, true, false, Option, none, some,
  List, [], ◌∷◌, ◌++◌, length, replicate, all, ltb, leb, ◌==◌, if◌then◌else◌, arith, length-append,
  set-append, Bool-cases, inl, inr, &&-true,
}
use mathlib.Core.List.{append_assoc, append-nil}
use mwptools.ReadSb.Message.{
  ValidSource, AircraftMeta, AircraftsUpdate, Aircraft, blank, to_uint32, distance_undefined,
}
use mwptools.Common.Result.{ok, fault, past_end}
use mwptools.ReadSb.Decode.{
  fill, Cursor, element, put, visit, visit_all, decode_update, decode_ac_pb,
}
use mwptools.ReadSb.Decode.Name.{callsign, read_name-ok, read_name-past_end}

-- The record of one aircraft, whatever stood in the array before.
abbrev pub entry : Bool → AircraftMeta → ValidSource → Aircraft
entry signed_char am vs = record {
  addr = am.addr;
  alt = if ltb 0 vs.altitude then am.alt_baro else blank.alt;
  hdg = if ltb 0 vs.mag_heading then to_uint32 am.mag_heading else 0;
  speed = if ltb 0 vs.gs then am.gs else 0;
  seen_pos = am.seen_pos;
  srange = if am.distance == 0 then distance_undefined else am.distance;
  lat = am.lat;
  lon = am.lon;
  catx = am.category % 256;
  name = callsign signed_char am.flight;
  seen_tm = am.seen;
}

-- An aircraft whose latitude has a source is reported.
abbrev pub report : Bool → AircraftMeta → Option ValidSource → List Aircraft
report signed_char am none = []
report signed_char am (some vs) = if ltb 0 vs.lat then entry signed_char am vs ∷ [] else []

-- The records of the aircraft that are reported, in the order of the message.
abbrev pub reports : Bool → List AircraftMeta → List Aircraft
reports signed_char [] = []
reports signed_char (am ∷ ams) = report signed_char am am.valid_source ++ reports signed_char ams

-- The submessage is there, and where the code reads the call sign it has seven bytes or more.
abbrev pub is_readable : AircraftMeta → Option ValidSource → Bool
is_readable am none = false
is_readable am (some vs) = if ltb 0 vs.lat then leb 7 (length am.flight) else true

abbrev pub all_readable : List AircraftMeta → Bool
all_readable = all (λ am. is_readable am am.valid_source)

pub fill-ok :
    (sc : Bool) (am : AircraftMeta) (vs : ValidSource)
    → 7 ≤ length am.flight
    → fill sc am vs blank ≡ ok (entry sc am vs)
unfolding fill
fill-ok sc am vs h = rw (read_name-ok sc am.flight h)

pub fill-past_end :
    (sc : Bool) (am : AircraftMeta) (vs : ValidSource) (ac : Aircraft)
    → length am.flight < 7
    → fill sc am vs ac ≡ fault past_end
unfolding fill
fill-past_end sc am vs ac h = rw (read_name-past_end sc am.flight h)

pub length-report :
    (sc : Bool) (am : AircraftMeta) (vs : Option ValidSource) → length (report sc am vs) ≤ 1
length-report sc am none = omega arith
length-report sc am (some vs) = ground arith

pub length-reports : (sc : Bool) (ams : List AircraftMeta) → length (reports sc ams) ≤ length ams
length-reports sc [] = omega arith
length-reports sc (am ∷ ams) = omega (
  arith,
  length-append (report sc am am.valid_source) (reports sc ams),
  length-report sc am am.valid_source,
  length-reports sc ams,
)

abbrev pub cursor : List Aircraft → ℕ → Cursor
cursor written spare = record {
  acs = some (written ++ replicate spare blank);
  ac = length written;
  anac = length written;
}

cursor-eq :
    (written : List Aircraft) (m n : ℕ) → m ≡ n → ok (cursor written m) ≡ ok (cursor written n)
cursor-eq written m n e = ap (λ k. ok (cursor written k)) e

-- The element behind a prefix of the array.
pub element-append :
    (xs : List Aircraft) (y : Aircraft) (ys : List Aircraft)
    → element (some (xs ++ y ∷ ys)) (length xs) ≡ ok y
element-append [] y ys = refl
element-append (x ∷ xs) y ys = element-append xs y ys

put-cursor :
    (written : List Aircraft) (k : ℕ) (a : Aircraft)
    → put (cursor written (suc k)) a ≡ cursor (written ++ a ∷ []) k
put-cursor written k a = ground (
  arith,
  length-append written (replicate (suc k) blank),
  length-append written (a ∷ []),
  set-append written blank a (replicate k blank),
  append_assoc written (a ∷ []) (replicate k blank),
)

-- One round appends what the aircraft reports.
pub visit-ok :
    (sc : Bool) (am : AircraftMeta) (vs : Option ValidSource) (written : List Aircraft) (k : ℕ)
    → is_readable am vs ≡ true
    → visit sc am vs (cursor written (suc k))
      ≡ ok (cursor (written ++ report sc am vs) (suc k - length (report sc am vs)))
unfolding visit
visit-ok sc am none written k h = ground arith
visit-ok sc am (some vs) written k h = elim (Bool-cases (ltb 0 vs.lat)) [
  | inl p ↦
      let long : 7 ≤ length am.flight = ground arith in
      rw (p, element-append written blank (replicate k blank), fill-ok sc am vs long)
        (ap ok (put-cursor written k (entry sc am vs)) ∙ cursor-eq _ k (suc k - 1) (omega arith))
  | inr p ↦ rw (p, append-nil) (cursor-eq written (suc k) (suc k - 0) (omega arith))
]

visit_all-ok :
    (sc : Bool) (ams : List AircraftMeta) (written : List Aircraft) (spare : ℕ)
    → all_readable ams ≡ true
    → length ams ≤ spare
    → visit_all sc ams (cursor written spare)
      ≡ ok (cursor (written ++ reports sc ams) (spare - length (reports sc ams)))
unfolding visit_all
visit_all-ok sc [] written spare h k =
    rw append-nil (cursor-eq written spare (spare - 0) (omega arith))
visit_all-ok sc (am ∷ ams) written zero h k = absurd (omega arith)
visit_all-ok sc (am ∷ ams) written (suc spare) h k =
    let (here, there) = &&-true (is_readable am am.valid_source) (all_readable ams) h in
    let now : List Aircraft = report sc am am.valid_source in
    rw
      (
        visit-ok sc am am.valid_source written spare here,
        visit_all-ok sc ams (written ++ now) (suc spare - length now) there
            (omega (arith, length-report sc am am.valid_source)),
        append_assoc written now (reports sc ams),
      )
      (cursor-eq _ _ (suc spare - length (now ++ reports sc ams))
        (omega (arith, length-append now (reports sc ams))))

decode_update-ok :
    (sc : Bool) (ams : List AircraftMeta)
    → ams ≢ []
    → all_readable ams ≡ true
    → let rs = reports sc ams in
      decode_update sc true ams
      ≡ ok (record {
        acs = some (rs ++ replicate (length ams - length rs) blank);
        nac = length ams;
        anac = length rs;
        freed = true;
      })
unfolding decode_update
decode_update-ok sc [] ne h = absurd (ne refl)
decode_update-ok sc (am ∷ ams) ne h =
    rw (visit_all-ok sc (am ∷ ams) [] (length (am ∷ ams)) h (omega arith))

-- When the message unpacks to at least one aircraft, every aircraft has its source submessage, the
-- call sign of every aircraft whose latitude has a source has seven bytes or more, and `calloc`
-- succeeds, then the decoder returns normally. The array has one element for each aircraft of the
-- message: first the records of the aircraft whose latitude has a source, in their order, then blank
-- ones. `nac` is the number of aircraft, the value returned the number of records, and the unpacked
-- message is freed.
pub decode_ac_pb-contents :
    (unpack : List ℕ → Option AircraftsUpdate) (signed_char : Bool) (buf : List ℕ)
    {au : AircraftsUpdate}
    → unpack buf ≡ some au
    → au.aircraft ≢ []
    → all_readable au.aircraft ≡ true
    → let rs = reports signed_char au.aircraft in
      let n = length au.aircraft in
      decode_ac_pb unpack signed_char true buf
      ≡ ok (record {
        acs = some (rs ++ replicate (n - length rs) blank);
        nac = n;
        anac = length rs;
        freed = true;
      })
unfolding decode_ac_pb
decode_ac_pb-contents unpack sc buf {au} e ne h =
    rw (e, decode_ac_pb) (decode_update-ok sc au.aircraft ne h)
