-- ===== src/Speech/Dispatch.antt =====
-- The functions of src/mwp/speech_wrapper.c that the Vala code calls.
use mwptools.Common.{ℕ, ◌+◌, Bool, false, ◌&&◌, some, List, ◌==◌, if◌then◌else◌}
use mwptools.Common.Int.{ℤ, pos, negsuc}
use mwptools.Common.Result.{Result, ok, ◌>>=◌}
use mwptools.Speech.State.{Engine, silent, espeak, speechd, flite, State}
use mwptools.Speech.Espeak.{EspeakLib, ep_init, ep_say}
use mwptools.Speech.Speechd.{SpeechdLib, sd_init, sd_say, sd_close}
use mwptools.Speech.Flite.{FliteLib, fl_init, fl_say}

-- The engines that the build compiles in: `USE_ESPEAK`, `USE_SPEECHD`, `USE_FLITE`.
pub record Build : Type 0 where
  pub use_espeak : Bool
  pub use_speechd : Bool
  pub use_flite : Bool

-- The shared libraries of the machine.
pub record Libs : Type 0 where
  pub espeak : EspeakLib
  pub speechd : SpeechdLib
  pub flite : FliteLib

-- The bits are set one by one, each once, so that `|=` is a sum.
unfoldable pub get_speech_api_mask : Build → ℕ
get_speech_api_mask b =
    (if b.use_espeak then 1 else 0)
    + (if b.use_speechd then 2 else 0)
    + (if b.use_flite then 4 else 0)

-- `_speech_close` is set for speechd alone.
unfoldable pub speech_set_api : Build → ℕ → State → State
speech_set_api b api s =
    if b.use_espeak && api == 1
    then record s { init = espeak; say = espeak }
    else if b.use_speechd && api == 2
    then record s { init = speechd; say = speechd; close = speechd }
    else if b.use_flite && api == 3
    then record s { init = flite; say = flite }
    else s

-- `(*_speech_init)(voice)`. Only flite looks whether `voice` is NULL; it is not where the Vala code
-- calls the function.
unfoldable pub run_init : Engine → Libs → List ℕ → State → Result (ℤ × State)
unfolding ep_init sd_init fl_init
run_init silent libs voice s = ok (pos 0, s)
run_init espeak libs voice s = ok (ep_init libs.espeak voice s)
run_init speechd libs voice s = let (res, s') = sd_init libs.speechd voice s in ok (pos res, s')
run_init flite libs voice s = fl_init libs.flite (some voice) s >>= λ (res, s'). ok (pos res, s')

abbrev pub is_none : ℤ → Bool
is_none (pos n) = n == 0
is_none (negsuc n) = false

unfoldable pub speech_init : Libs → List ℕ → State → Result (ℤ × State)
unfolding run_init
speech_init libs voice s = run_init s.init libs voice s >>= λ (res, s').
    ok (res, if is_none res then record s' { say = silent } else s')

unfoldable pub run_say : Engine → List ℕ → State → Result State
unfolding ep_say sd_say fl_say
run_say silent text s = ok s
run_say espeak text s = ep_say text s
run_say speechd text s = sd_say text s
run_say flite text s = fl_say text s

unfoldable pub speech_say : List ℕ → State → Result State
unfolding run_say
speech_say text s = run_say s.say text s

unfoldable pub run_close : Engine → Libs → State → State
unfolding sd_close
run_close silent libs s = s
run_close espeak libs s = s
run_close speechd libs s = sd_close libs.speechd s
run_close flite libs s = s

unfoldable pub speech_close : Libs → State → State
unfolding run_close
speech_close libs s = run_close s.close libs s
