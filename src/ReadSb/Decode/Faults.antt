-- ===== src/ReadSb/Decode/Faults.antt =====
-- The paths of `decode_ac_pb` in src/mwp/decode_readsb.c that report nothing or go wrong.
use mwptools.Common.{
  ℕ, zero, suc, ◌-◌, ◌≤◌, ◌<◌, ◌≡◌, ◌≢◌, refl, Bool, true, false, Option, none, some, List, [], ◌∷◌,
  ◌||◌, ◌++◌, length, replicate, ltb, if◌then◌else◌, arith, Bool-cases, inl, inr, ◌⊎◌,
}
use mwptools.ReadSb.Message.{ValidSource, AircraftMeta, AircraftsUpdate, Aircraft, blank}
use mwptools.Common.Result.{ok, fault, Fault, null_pointer, past_end}
use mwptools.ReadSb.Decode.{Cursor, visit, visit_all, decode_update, decode_ac_pb}
use mwptools.ReadSb.Decode.Contents.{
  is_readable, all_readable, report, element-append, length-report, cursor, visit-ok, fill-past_end,
}

-- The fault of one aircraft that is not readable.
abbrev pub fault_of : Option ValidSource → Fault
fault_of none = null_pointer
fault_of (some vs) = past_end

-- The fault of the first aircraft that is not readable.
abbrev pub first_fault : List AircraftMeta → Fault
first_fault [] = null_pointer
first_fault (am ∷ ams) =
    let rest = first_fault ams in
    if is_readable am am.valid_source then rest else fault_of am.valid_source

visit-fault :
    (sc : Bool) (am : AircraftMeta) (vs : Option ValidSource) (written : List Aircraft) (k : ℕ)
    → is_readable am vs ≡ false
    → visit sc am vs (cursor written (suc k)) ≡ fault (fault_of vs)
unfolding visit
visit-fault sc am none written k h = refl
visit-fault sc am (some vs) written k h = elim (Bool-cases (ltb 0 vs.lat)) [
  | inl p ↦
      let short : length am.flight < 7 = ground arith in
      rw (p, element-append written blank (replicate k blank), fill-past_end sc am vs blank short)
  | inr p ↦ ground arith
]

visit_all-fault :
    (sc : Bool) (ams : List AircraftMeta) (written : List Aircraft) (spare : ℕ)
    → all_readable ams ≡ false
    → length ams ≤ spare
    → visit_all sc ams (cursor written spare) ≡ fault (first_fault ams)
unfolding visit_all
visit_all-fault sc [] written spare h k = ground arith
visit_all-fault sc (am ∷ ams) written zero h k = absurd (omega arith)
visit_all-fault sc (am ∷ ams) written (suc spare) h k =
    elim (Bool-cases (is_readable am am.valid_source)) [
      | inl p ↦
          let rest : all_readable ams ≡ false = ground arith in
          rw (
            p,
            visit-ok sc am am.valid_source written spare p,
            visit_all-fault sc ams (written ++ report sc am am.valid_source)
                (suc spare - length (report sc am am.valid_source)) rest
                (omega (arith, length-report sc am am.valid_source)),
          )
      | inr p ↦ rw (p, visit-fault sc am am.valid_source written spare p)
    ]

decode_update-fault :
    (sc : Bool) (ams : List AircraftMeta)
    → all_readable ams ≡ false
    → decode_update sc true ams ≡ fault (first_fault ams)
unfolding decode_update
decode_update-fault sc [] h = ground arith
decode_update-fault sc (am ∷ ams) h =
    rw (visit_all-fault sc (am ∷ ams) [] (length (am ∷ ams)) h (omega arith))

-- When `calloc` succeeds and some aircraft of the unpacked message lacks its source submessage, or
-- has a latitude with a source and a call sign of fewer than seven bytes, the decoder runs into
-- undefined behaviour at the first such aircraft: it follows the NULL pointer in the former case,
-- and reads behind the terminator of the call sign in the latter.
pub decode_ac_pb-fault :
    (unpack : List ℕ → Option AircraftsUpdate) (signed_char : Bool) (buf : List ℕ)
    {au : AircraftsUpdate}
    → unpack buf ≡ some au
    → all_readable au.aircraft ≡ false
    → decode_ac_pb unpack signed_char true buf ≡ fault (first_fault au.aircraft)
unfolding decode_ac_pb
decode_ac_pb-fault unpack sc buf {au} e h =
    rw (e, decode_ac_pb) (decode_update-fault sc au.aircraft h)

-- A message that does not unpack, or holds no aircraft, gives a NULL array and two zero counts,
-- whatever `calloc` would do. What was unpacked is not freed on this path.
decode_ac_pb-nothing :
    (unpack : List ℕ → Option AircraftsUpdate) (signed_char allocated : Bool) (buf : List ℕ)
    → (unpack buf ≡ none) ⊎ (unpack buf ≡ some (record { aircraft = [] }))
    → decode_ac_pb unpack signed_char allocated buf
      ≡ ok (record { acs = none; nac = 0; anac = 0; freed = false })
unfolding decode_ac_pb
decode_ac_pb-nothing unpack sc a buf (inl e) = rw (e, decode_ac_pb)
decode_ac_pb-nothing unpack sc a buf (inr e) = rw (e, decode_ac_pb)

-- The decoder would follow a pointer for the aircraft, other than the one to its source, to write
-- its record; or the source is NULL.
abbrev pub touches : Option ValidSource → Bool
touches none = true
touches (some vs) = ltb 0 vs.lat

abbrev pub any_touches : List AircraftMeta → Bool
any_touches [] = false
any_touches (am ∷ ams) = touches am.valid_source || any_touches ams

visit-unallocated :
    (sc : Bool) (am : AircraftMeta) (vs : Option ValidSource) (c : Cursor)
    → c.acs ≡ none
    → visit sc am vs c ≡ (if touches vs then fault null_pointer else ok c)
unfolding visit
visit-unallocated sc am none c e = refl
visit-unallocated sc am (some vs) c e = elim (Bool-cases (ltb 0 vs.lat)) [
  | inl p ↦ rw (p, e)
  | inr p ↦ rw p
]

visit_all-unallocated :
    (sc : Bool) (ams : List AircraftMeta) (c : Cursor)
    → c.acs ≡ none
    → visit_all sc ams c ≡ (if any_touches ams then fault null_pointer else ok c)
unfolding visit_all
visit_all-unallocated sc [] c e = refl
visit_all-unallocated sc (am ∷ ams) c e = elim (Bool-cases (touches am.valid_source)) [
  | inl p ↦ rw (visit-unallocated sc am am.valid_source c e, p)
  | inr p ↦ rw (visit-unallocated sc am am.valid_source c e, p) (visit_all-unallocated sc ams c e)
]

abbrev unallocated : Cursor
unallocated = record { acs = none; ac = 0; anac = 0 }

decode_update-unallocated :
    (sc : Bool) (ams : List AircraftMeta)
    → ams ≢ []
    → decode_update sc false ams ≡ (
        if any_touches ams
        then fault null_pointer
        else ok (record { acs = none; nac = length ams; anac = 0; freed = true }))
unfolding decode_update
decode_update-unallocated sc [] ne = absurd (ne refl)
decode_update-unallocated sc (am ∷ ams) ne = elim (Bool-cases (any_touches (am ∷ ams))) [
  | inl p ↦ rw (visit_all-unallocated sc (am ∷ ams) unallocated refl, p)
  | inr p ↦ rw (visit_all-unallocated sc (am ∷ ams) unallocated refl, p)
]

-- When the message unpacks to at least one aircraft and `calloc` fails, the decoder follows a NULL
-- pointer if any aircraft has a latitude with a source or lacks its source submessage: the test for
-- a failed `calloc` looks at the wrong pointer. Otherwise it returns a NULL array, no records, and
-- `nac` still the number of aircraft.
decode_ac_pb-unallocated :
    (unpack : List ℕ → Option AircraftsUpdate) (signed_char : Bool) (buf : List ℕ)
    {au : AircraftsUpdate}
    → unpack buf ≡ some au
    → au.aircraft ≢ []
    → decode_ac_pb unpack signed_char false buf ≡ (
        if any_touches au.aircraft
        then fault null_pointer
        else ok (record { acs = none; nac = length au.aircraft; anac = 0; freed = true }))
unfolding decode_ac_pb
decode_ac_pb-unallocated unpack sc buf {au} e ne =
    rw (e, decode_ac_pb) (decode_update-unallocated sc au.aircraft ne)

-- A message that does not unpack, or holds no aircraft, gives a NULL array and two zero counts,
-- whatever `calloc` would do; what was unpacked is not freed on this path. When another message
-- unpacks to at least one aircraft and `calloc` fails, the decoder follows a NULL pointer if any
-- aircraft has a latitude with a source or lacks its source submessage: the test for a failed
-- `calloc` looks at the wrong pointer. Otherwise it returns a NULL array, no records, and `nac`
-- still the number of aircraft.
pub decode_ac_pb-no_array :
    (unpack : List ℕ → Option AircraftsUpdate) (signed_char allocated : Bool) (empty buf : List ℕ)
    {au : AircraftsUpdate}
    → (unpack empty ≡ none) ⊎ (unpack empty ≡ some (record { aircraft = [] }))
    → unpack buf ≡ some au
    → au.aircraft ≢ []
    → (decode_ac_pb unpack signed_char allocated empty
        ≡ ok (record { acs = none; nac = 0; anac = 0; freed = false }))
      × (decode_ac_pb unpack signed_char false buf ≡ (
          if any_touches au.aircraft
          then fault null_pointer
          else ok (record { acs = none; nac = length au.aircraft; anac = 0; freed = true })))
decode_ac_pb-no_array unpack sc a empty buf none_there e ne =
    (decode_ac_pb-nothing unpack sc a empty none_there, decode_ac_pb-unallocated unpack sc buf e ne)
