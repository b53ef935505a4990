-- ===== src/Speech/Tests.antt =====
-- Sessions of the speech wrapper of src/mwp/speech_wrapper.c.
use mwptools.Common.{◌≡◌, refl, true, false, some, List, [], ◌∷◌, arith}
use mwptools.Common.Int.{pos, negsuc}
use mwptools.Common.CString.{codes}
use mwptools.Common.Result.{ok, fault, null_pointer}
use mwptools.Speech.State.{
  Engine, espeak, speechd, flite, State, start, initialize, set_voice_name, speak, load_voice,
  built_in_voice, stretch, hang_up, cancel_all,
}
use mwptools.Speech.Espeak.{EspeakLib}
use mwptools.Speech.Speechd.{SpeechdLib}
use mwptools.Speech.Flite.{FliteLib}
use mwptools.Speech.Dispatch.{
  Build, Libs, speech_set_api, speech_init, speech_say, speech_close, get_speech_api_mask,
}
use mwptools.Speech.Ready.{IsSound}
use mwptools.Speech.Safety.{Request, restart, say, close, serve_all, serve_all-ok}
use mwptools.Speech.Apis.{speech_set_api-mask, speech_init-espeak_error, speech_close-espeak}
use mwptools.Speech.Starts.{said}
use mwptools.Speech.Heard.{serve_all-heard}

abbrev all_engines : Build
all_engines = record { use_espeak = true; use_speechd = true; use_flite = true }

abbrev espeak_ng : EspeakLib
espeak_ng = record {
  path = true;
  opens = true;
  initialize = some (pos 22050);
  set_voice = true;
  synth = true;
  synchronize = true;
}

abbrev libspeechd : SpeechdLib
libspeechd = record {
  path = true;
  opens = true;
  open2 = true;
  connects = true;
  set_language = false;
  set_voice_type = true;
  set_volume = false;
  set_notification_on = false;
  say = true;
  cancel_all = true;
  close = true;
}

-- A voice file that cannot be loaded, and a stretch factor.
abbrev libflite : FliteLib
libflite = record {
  version_2 = true;
  path = true;
  opens = true;
  init = true;
  add_lang = true;
  voice_load = true;
  set_float = true;
  string = true;
  tts = true;
  usenglish = some true;
  cmulex = some true;
  slt = some true;
  adds = (pos 1, pos 1);
  loads = λ p. false;
  nonzero = λ p. true;
  registers = true;
}

abbrev libs : Libs
libs = record { espeak = espeak_ng; speechd = libspeechd; flite = libflite }

abbrev session : List Request
session =
    restart 3 (codes "awb,1.2")
    ∷ say (codes "a")
    ∷ restart 1 (codes "en")
    ∷ say (codes "b")
    ∷ close
    ∷ []

abbrev after_session : State
after_session = record {
  init = espeak;
  say = espeak;
  close = Engine.silent;
  handle = some espeak;
  ess = true;
  esh = true;
  spd = false;
  ssay = false;
  fl_tts = true;
  voice = true;
  calls =
      speak espeak (codes "b")
      ∷ set_voice_name (codes "en")
      ∷ initialize
      ∷ speak flite (codes "a")
      ∷ stretch (codes "1.2")
      ∷ built_in_voice
      ∷ load_voice (codes "awb")
      ∷ initialize
      ∷ [];
}

session_runs : serve_all all_engines libs session start ≡ ok after_session
unfolding serve_all speech_init speech_set_api speech_say speech_close
session_runs = refl

libs-IsSound : IsSound libs
libs-IsSound = record {
  starts = refl;
  synth = refl;
  synchronize = refl;
  has_voice = refl;
  registers = refl;
}

serve_all-ok_example : (s : State) × (serve_all all_engines libs session start ≡ ok s)
serve_all-ok_example = serve_all-ok all_engines libs session libs-IsSound

speech_set_api-mask_example :
    speech_set_api (record { use_espeak = false; use_speechd = true; use_flite = false }) 2 start
    ≡ record start { init = speechd; say = speechd; close = speechd }
unfolding get_speech_api_mask
speech_set_api-mask_example =
    speech_set_api-mask (record { use_espeak = false; use_speechd = true; use_flite = false }) 2
      start (omega arith) (omega arith)

abbrev broken : Libs
broken = record libs { espeak = record espeak_ng { initialize = some (negsuc 0) } }

speech_init-espeak_error_example :
    (s' : State) × (speech_init broken (codes "en") (speech_set_api all_engines 1 start)
      ≡ ok (negsuc 0, s'))
    × (speech_say (codes "a") s' ≡ fault null_pointer)
speech_init-espeak_error_example =
    speech_init-espeak_error all_engines broken (codes "en") (codes "a") start refl refl refl refl
      refl

abbrev connected : State
connected = record start {
  init = speechd;
  say = speechd;
  close = speechd;
  handle = some speechd;
  spd = true;
  ssay = true;
}

abbrev left : State
left = record connected {
  init = espeak;
  say = espeak;
  handle = some espeak;
  ess = true;
  esh = true;
  calls = set_voice_name (codes "en") ∷ initialize ∷ [];
}

-- Closing without the change of engine would hang up.
hangs_up :
    speech_close libs connected
    ≡ record connected { spd = false; calls = hang_up ∷ cancel_all ∷ [] }
unfolding speech_close
hangs_up = refl

switches : speech_init libs (codes "en") (speech_set_api all_engines 1 connected) ≡ ok (pos 1, left)
unfolding speech_init speech_set_api
switches = refl

speech_close-espeak_example : (speech_close libs left ≡ left) × (left.spd ≡ true)
speech_close-espeak_example =
    speech_close-espeak all_engines libs (codes "en") connected refl refl refl refl refl switches

-- The engine 9 is none, so flite goes on.
abbrev talk : List Request
talk =
    restart 3 (codes "awb,1.2")
    ∷ say (codes "a")
    ∷ restart 9 (codes "awb")
    ∷ say (codes "b")
    ∷ restart 1 (codes "en")
    ∷ say (codes "c")
    ∷ []

serve_all-heard_example :
    (s : State) × (serve_all all_engines libs talk start ≡ ok s)
    × (said s.calls ≡ (espeak, codes "c") ∷ (flite, codes "b") ∷ (flite, codes "a") ∷ [])
unfolding get_speech_api_mask
serve_all-heard_example = serve_all-heard all_engines libs talk libs-IsSound refl
