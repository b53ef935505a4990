-- ===== src/ReadSb/Decode/Names.antt =====
-- The call signs in the array that `decode_ac_pb` of src/mwp/decode_readsb.c returns.
use mwptools.Common.{
  ℕ, zero, suc, ◌-◌, ◌≤◌, ◌≡◌, ◌≢◌, refl, Bool, true, Option, none, some, List, [], ◌∷◌, ◌++◌,
  length, map, take, replicate, ltb, arith, ◌⊎◌, All, All-append, length-append, length-replicate,
  get_elem?, get_elem?-append_length, length-map, length-take, Bool-cases, inl, inr, &&-true,
}
use mwptools.ReadSb.Message.{ValidSource, AircraftMeta, AircraftsUpdate, Aircraft, blank}
use mwptools.Common.Result.{ok}
use mwptools.ReadSb.Decode.{clean, is_printable, Decoded, decode_ac_pb}
use mwptools.ReadSb.Decode.Name.{callsign, length-callsign}
use mwptools.ReadSb.Decode.Contents.{
  is_readable, all_readable, report, reports, length-reports, decode_ac_pb-contents,
}

-- Nine bytes, each of them zero or one that the decoder takes for printable, and the last one zero.
pub record IsText (sc : Bool) (name : List ℕ) : Type 0 where
  pub size : length name ≡ 9
  pub bytes : All (λ c. (c ≡ 0) ⊎ (is_printable sc c ≡ true)) name
  pub ended : get_elem? name 8 ≡ some 0

map-clean-bytes :
    (sc : Bool) (s : List ℕ) → All (λ c. (c ≡ 0) ⊎ (is_printable sc c ≡ true)) (map (clean sc) s)
map-clean-bytes sc [] = tt
map-clean-bytes sc (c ∷ s) = (
  elim (Bool-cases (is_printable sc c)) [ inl p ↦ inr (rw (p, p)) | inr p ↦ inl (rw p refl) ],
  map-clean-bytes sc s,
)

get_elem?-map_take_8 :
    (sc : Bool) (s : List ℕ) → 7 ≤ length s → get_elem? (callsign sc s) 8 ≡ some 0
get_elem?-map_take_8 sc s h =
    get_elem?-append_length (map (clean sc) (take 8 (s ++ 0 ∷ []))) 0 8
      (simp (length-map, length-take, length-append) (omega arith))

callsign-IsText : (sc : Bool) (s : List ℕ) → 7 ≤ length s → IsText sc (callsign sc s)
callsign-IsText sc s h = record {
  size = length-callsign sc s h;
  bytes =
      All-append _ (map (clean sc) (take 8 (s ++ 0 ∷ []))) (0 ∷ [])
        (map-clean-bytes sc (take 8 (s ++ 0 ∷ []))) (inl refl, tt);
  ended = get_elem?-map_take_8 sc s h;
}

replicate-blank : (sc : Bool) (n : ℕ) → All (λ a. IsText sc a.name) (replicate n blank)
replicate-blank sc zero = tt
replicate-blank sc (suc n) =
    (record { size = refl; bytes = ground arith; ended = refl }, replicate-blank sc n)

report-IsText :
    (sc : Bool) (am : AircraftMeta) (vs : Option ValidSource)
    → is_readable am vs ≡ true
    → All (λ a. IsText sc a.name) (report sc am vs)
report-IsText sc am none h = tt
report-IsText sc am (some vs) h = elim (Bool-cases (ltb 0 vs.lat)) [
  | inl p ↦ rw p (callsign-IsText sc am.flight (ground arith), tt)
  | inr p ↦ rw p tt
]

reports-IsText :
    (sc : Bool) (ams : List AircraftMeta)
    → all_readable ams ≡ true
    → All (λ a. IsText sc a.name) (reports sc ams)
reports-IsText sc [] h = tt
reports-IsText sc (am ∷ ams) h =
    let (here, there) = &&-true (is_readable am am.valid_source) (all_readable ams) h in
    All-append _ (report sc am am.valid_source) (reports sc ams)
      (report-IsText sc am am.valid_source here) (reports-IsText sc ams there)

-- On a message with at least one aircraft, where every aircraft is readable (it has its source
-- submessage, and a call sign of seven bytes or more if its latitude has a source) and `calloc`
-- succeeds, the decoder returns an array with as many elements as it says in `nac`, of which it
-- claims no more than that to be filled. Every name in the array has nine bytes, the last one zero
-- and each of the others zero or one from 32 on; where `char` is signed, also below 128.
pub decode_ac_pb-IsText :
    (unpack : List ℕ → Option AircraftsUpdate) (signed_char : Bool) (buf : List ℕ)
    {au : AircraftsUpdate}
    → unpack buf ≡ some au
    → au.aircraft ≢ []
    → all_readable au.aircraft ≡ true
    → (d : Decoded) × (xs : List Aircraft) × (decode_ac_pb unpack signed_char true buf ≡ ok d)
      × (d.acs ≡ some xs)
      × (length xs ≡ d.nac)
      × (d.anac ≤ d.nac)
      × All (λ a. IsText signed_char a.name) xs
decode_ac_pb-IsText unpack sc buf {au} e ne h =
    let rs : List Aircraft = reports sc au.aircraft in
    let n : ℕ = length au.aircraft in
    let xs : List Aircraft = rs ++ replicate (n - length rs) blank in
    (
      record { acs = some xs; nac = n; anac = length rs; freed = true },
      xs,
      decode_ac_pb-contents unpack sc buf e ne h,
      refl,
      simp (length-append, length-replicate) (omega (arith, length-reports sc au.aircraft)),
      length-reports sc au.aircraft,
      All-append _ rs (replicate (n - length rs) blank) (reports-IsText sc au.aircraft h)
          (replicate-blank sc (n - length rs)),
    )
