-- ===== src/Speech/Flite.antt =====
-- `fl_init` and `fl_say` of src/mwp/speech_wrapper.c.
use mwptools.Common.{
  ℕ, Bool, true, false, not, ◌&&◌, Option, none, some, List, [], ◌∷◌, ◌==◌, if◌then◌else◌,
}
use mwptools.Common.Int.{ℤ, pos, negsuc}
use mwptools.Common.Result.{Result, ok, fault, null_pointer, ◌>>=◌}
use mwptools.Speech.State.{
  flite, initialize, load_voice, stretch, built_in_voice, speak, State, log,
}

-- libflite and its companions. `usenglish`, `cmulex` and `slt` are `none` where the library does not
-- open, and say otherwise whether it has its symbol; `adds` is what the two calls of
-- `flite_add_lang` return, `loads` whether a voice is loaded from a path, `nonzero` whether `atof`
-- reads something other than 0, and `registers` whether `register_cmu_us_slt` returns a voice.
pub record FliteLib : Type 0 where
  pub version_2 : Bool
  pub path : Bool
  pub opens : Bool
  pub init : Bool
  pub add_lang : Bool
  pub voice_load : Bool
  pub set_float : Bool
  pub string : Bool
  pub tts : Bool
  pub usenglish : Option Bool
  pub cmulex : Option Bool
  pub slt : Option Bool
  pub adds : ℤ × ℤ
  pub loads : List ℕ → Bool
  pub nonzero : List ℕ → Bool
  pub registers : Bool

-- `strsep(&s, ",")`: the token, and what is behind its comma.
abbrev pub token : List ℕ → List ℕ
token [] = []
token (c ∷ s) = let rest = token s in if c == b',' then [] else c ∷ rest

abbrev pub behind_comma : List ℕ → Option (List ℕ)
behind_comma [] = none
behind_comma (c ∷ s) = let rest = behind_comma s in if c == b',' then some s else rest

-- `parts[0]` and `parts[1]`
abbrev pub parts : Option (List ℕ) → Option (List ℕ) × Option (List ℕ)
parts none = (none, none)
parts (some name) =
    (some (token name), elim (behind_comma name) [ none ↦ none | some s ↦ some (token s) ])

abbrev pub is_one : ℤ → Bool
is_one (pos n) = n == 1
is_one (negsuc n) = false

abbrev pub symbol : Option Bool → Bool
symbol none = false
symbol (some found) = found

abbrev pub is_open : Option Bool → Bool
is_open none = false
is_open (some found) = true

-- The tests that lead to `out` before a voice is looked for.
abbrev pub is_usable : FliteLib → Bool
is_usable lib =
    is_open lib.usenglish
    && (is_open lib.cmulex
        && (lib.add_lang
            && (lib.voice_load
                && (lib.tts
                    && (symbol lib.usenglish
                        && (symbol lib.cmulex
                            && (lib.string
                                && (lib.set_float
                                    && (is_one lib.adds.0
                                        && (is_one lib.adds.1 && is_open lib.slt))))))))))

abbrev pub load : FliteLib → Option (List ℕ) → State → State
load lib none s = s
load lib (some p) s = record (log (load_voice p) s) { voice = lib.loads p }

-- `if (voice == NULL && fl_slt != NULL) voice = (*fl_slt)();`
abbrev pub fall_back : FliteLib → State → State
fall_back lib s =
    if not s.voice && symbol lib.slt
    then record (log built_in_voice s) { voice = lib.registers }
    else s

-- `voice->features` is read for the stretch, if any, and for the name.
abbrev pub tune : FliteLib → Option (List ℕ) → State → Result State
tune lib none s = if s.voice then ok s else fault null_pointer
tune lib (some p) s =
    if s.voice then ok (if lib.nonzero p then log (stretch p) s else s) else fault null_pointer

abbrev pub choose : FliteLib → Option (List ℕ) → State → Result State
choose lib name s =
    let (path, factor) = parts name in tune lib factor (fall_back lib (load lib path s))

-- `return (voice == NULL) ? API_NONE : API_FLITE`
abbrev pub out : State → ℕ × State
out s = (if s.voice then 3 else 0, s)

unfoldable pub fl_init : FliteLib → Option (List ℕ) → State → Result (ℕ × State)
fl_init lib name s =
    if lib.version_2 && lib.path
    then (let s1 = record s { handle = if lib.opens then some flite else none } in
        if lib.opens && lib.init
        then (let s2 = record (log initialize s1) { fl_tts = lib.tts } in
            if is_usable lib then (choose lib name s2 >>= λ s3. ok (out s3)) else ok (out s2))
        else ok (out s1))
    else ok (out s)

-- `(*fl_tts)(text, voice, "play")`
unfoldable pub fl_say : List ℕ → State → Result State
fl_say text s = if s.fl_tts && s.voice then ok (log (speak flite text) s) else fault null_pointer
