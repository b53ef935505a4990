-- ===== src/Speech/Apis.antt =====
-- How src/mwp/speech_wrapper.c chooses an engine, and how it leaves one.
use mwptools.Common.{
  ℕ, ◌-◌, ◌/◌, ◌%◌, ◌^◌, ◌≤◌, ◌≡◌, Bool, true, false, ◌&&◌, some, List, ◌∷◌, ◌==◌, if◌then◌else◌,
  arith,
}
use mwptools.Common.Int.{ℤ, negsuc}
use mwptools.Common.Result.{ok, fault, null_pointer}
use mwptools.Speech.State.{Engine, espeak, speechd, flite, initialize, State}
use mwptools.Speech.Dispatch.{
  Build, Libs, get_speech_api_mask, speech_set_api, speech_init, speech_say, speech_close,
}

-- The engine that a number asks for.
abbrev pub engine_of : ℕ → Engine
engine_of n = if n == 1 then espeak else if n == 2 then speechd else flite

abbrev pub has_bit : ℕ → ℕ → Bool
has_bit mask k = mask / 2 ^ k % 2 == 1

-- An API number from 1 to 3 is accepted exactly when its bit of the mask is set, the bit 0 for the
-- number 1: then the functions to start and to speak are those of the engine, and otherwise nothing
-- changes. The function to close changes for speechd alone, and no other variable does.
pub speech_set_api-mask :
    (b : Build) (api : ℕ) (s : State)
    → 1 ≤ api
    → api ≤ 3
    → speech_set_api b api s ≡ (
        if has_bit (get_speech_api_mask b) (api - 1)
        then record s {
          init = engine_of api;
          say = engine_of api;
          close = if api == 2 then speechd else s.close;
        }
        else s)
unfolding speech_set_api get_speech_api_mask
speech_set_api-mask b api s lo hi = ground arith

-- A libespeak that opens and whose `espeak_Initialize` fails is not taken for a failure: the result
-- is -1, which is not `API_NONE`, so the espeak function stays in place; and the first text follows
-- its NULL pointer, unless an earlier start had set both.
pub speech_init-espeak_error :
    (b : Build) (libs : Libs) (voice text : List ℕ) (s : State)
    → b.use_espeak ≡ true
    → libs.espeak.path ≡ true
    → libs.espeak.opens ≡ true
    → libs.espeak.initialize ≡ some (negsuc 0)
    → (s.ess && s.esh) ≡ false
    → (s' : State) × (speech_init libs voice (speech_set_api b 1 s) ≡ ok (negsuc 0, s'))
      × (speech_say text s' ≡ fault null_pointer)
unfolding speech_init speech_say speech_set_api
speech_init-espeak_error b libs voice text s used path opens init unset = (
  record s { init = espeak; say = espeak; handle = some espeak; calls = initialize ∷ s.calls },
  ground arith,
  ground arith,
)

-- When speechd has a connection and the program then starts espeak, whose library opens, closing
-- does nothing: the function to close is still that of speechd, but it looks its symbols up in the
-- library opened last. The connection stays.
pub speech_close-espeak :
    (b : Build) (libs : Libs) (voice : List ℕ) (s : State) {res : ℤ} {s' : State}
    → b.use_espeak ≡ true
    → libs.espeak.path ≡ true
    → libs.espeak.opens ≡ true
    → s.close ≡ speechd
    → s.spd ≡ true
    → speech_init libs voice (speech_set_api b 1 s) ≡ ok (res, s')
    → (speech_close libs s' ≡ s') × (s'.spd ≡ true)
unfolding speech_init speech_close speech_set_api
speech_close-espeak b libs voice s used path opens close spd e = ground arith
