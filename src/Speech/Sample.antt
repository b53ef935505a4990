-- ===== src/Speech/Sample.antt =====
-- The test program src/samples/flite/ftest.c, which speaks the lines of its input.
use mwptools.Common.{
  ℕ, ◌-◌, Bool, true, false, ◌&&◌, ◌||◌, Option, none, some, List, [], ◌∷◌, ◌++◌, ◌==◌,
  if◌then◌else◌,
}
use mwptools.Common.Int.{ℤ}
use mwptools.Common.Result.{Result, ok, fault, null_pointer, past_end, uninitialized, ◌>>=◌}
use mwptools.Common.Buffer.{text, push}
use mwptools.Speech.State.{Call, flite, initialize, load_voice, stretch, built_in_voice, speak}
use mwptools.Speech.Flite.{parts, is_one, is_open, symbol}

-- libflite, read as in `FliteLib`, here with each symbol optional: `add_lang` has what the two calls
-- return, `voice_load` whether a voice is loaded from a path, `slt` and `kal` whether the voice's
-- library opens and has its symbol.
pub record SampleLib : Type 0 where
  pub path : Bool
  pub opens : Bool
  pub init : Bool
  pub add_lang : Option (ℤ × ℤ)
  pub voice_load : Option (List ℕ → Bool)
  pub set_float : Bool
  pub string : Bool
  pub tts : Bool
  pub usenglish : Option Bool
  pub cmulex : Option Bool
  pub slt : Option Bool
  pub kal : Option Bool
  pub nonzero : List ℕ → Bool
  pub registers : Bool

-- `voice` and `fl_tts`: whether they are set. `calls`: the calls made so far, the latest first.
pub record Talk : Type 0 where
  pub voice : Bool
  pub fl_tts : Bool
  pub calls : List Call

abbrev pub silence : Talk
silence = record { voice = false; fl_tts = false; calls = [] }

abbrev pub call : Call → Talk → Talk
call c s = record s { calls = c ∷ s.calls }

abbrev pub has_languages : Option (ℤ × ℤ) → Bool
has_languages none = true
has_languages (some (i0, i1)) = is_one i0 && is_one i1

-- The tests that lead to `out` before a voice is looked for.
abbrev pub allows : SampleLib → Bool
allows lib =
    is_open lib.usenglish
    && (is_open lib.cmulex
        && (lib.tts
            && (symbol lib.usenglish
                && (lib.string && (lib.set_float && has_languages lib.add_lang)))))

-- `fl_slt`, which nothing sets where neither library opens.
abbrev pub find_voice : SampleLib → Result Bool
find_voice lib = elim lib.slt [
  | some found ↦ ok found
  | none ↦ elim lib.kal [ some found ↦ ok found | none ↦ fault uninitialized ]
]

-- `voice` and `parts[1]` behind the block that takes `vname` apart.
abbrev pub load_named : SampleLib → Option (List ℕ) → Talk → Option (List ℕ) × Talk
load_named lib none s = (none, s)
load_named lib (some name) s = elim lib.voice_load [
  | none ↦ (none, s)
  | some loads ↦ elim (parts (some name)).0 [
    | none ↦ ((parts (some name)).1, s)
    | some p ↦ ((parts (some name)).1, record (call (load_voice p) s) { voice = loads p })
  ]
]

abbrev pub built_in : SampleLib → Talk → Talk
built_in lib s = if s.voice then s else record (call built_in_voice s) { voice = lib.registers }

-- `voice->features` is read for the stretch, if any, and for the name.
abbrev pub features : SampleLib → Option (List ℕ) → Talk → Result Talk
features lib none s = if s.voice then ok s else fault null_pointer
features lib (some p) s =
    if s.voice then ok (if lib.nonzero p then call (stretch p) s else s) else fault null_pointer

abbrev pub prepare : SampleLib → Option (List ℕ) → Talk → Result Talk
prepare lib name s = find_voice lib >>= λ found.
    if found
    then (let (factor, s1) = load_named lib name s in features lib factor (built_in lib s1))
    else ok s

-- The result of `fl_init` is 0 where `voice` is set behind it.
unfoldable pub fl_init : SampleLib → Option (List ℕ) → Result Talk
fl_init lib name =
    if lib.path && (lib.opens && lib.init)
    then (let s : Talk = record { voice = false; fl_tts = lib.tts; calls = initialize ∷ [] } in
        if allows lib then prepare lib name s else ok s)
    else ok silence

-- `(*fl_tts)(text, voice, "play")`
abbrev pub fl_say : List ℕ → Talk → Result Talk
fl_say t s = if s.fl_tts && s.voice then ok (call (speak flite t) s) else fault null_pointer

abbrev pub extend : ℕ → List (List ℕ) → List (List ℕ)
extend c [] = (c ∷ []) ∷ []
extend c (p ∷ ps) = (c ∷ p) ∷ ps

-- What `fgets(buf, 1024, stdin)` reads in turn, with room for so many bytes in the first.
abbrev pub pieces : ℕ → List ℕ → List (List ℕ)
pieces room [] = []
pieces room (c ∷ s) =
    let ends = c == b'\n' || room == 1 in
    let rest = pieces (if ends then 1023 else room - 1) s in
    if ends then (c ∷ []) ∷ rest else extend c rest

-- `buf[n - 1] = 0`, which for an empty text writes in front of the array.
abbrev pub shorten : List ℕ → Result (List ℕ)
shorten [] = fault past_end
shorten (c ∷ []) = ok []
shorten (c ∷ d ∷ s) = push c (shorten (d ∷ s))

-- One round of the loop, and the loop.
abbrev pub speak_piece : List ℕ → Talk → Result Talk
speak_piece p s = text (p ++ 0 ∷ []) >>= shorten >>= λ t. fl_say t s

abbrev pub speak_all : List (List ℕ) → Talk → Result Talk
speak_all [] s = ok s
speak_all (p ∷ ps) s = speak_piece p s >>= speak_all ps

unfoldable pub main : SampleLib → Option (List ℕ) → List ℕ → Result Talk
main lib name stdin =
    fl_init lib name >>= λ s. if s.voice then speak_all (pieces 1023 stdin) s else ok s
