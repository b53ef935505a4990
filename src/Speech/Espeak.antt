-- ===== src/Speech/Espeak.antt =====
-- `ep_init` and `ep_say` of src/mwp/speech_wrapper.c.
use mwptools.Common.{ℕ, Bool, false, ◌&&◌, Option, none, some, List, ◌==◌, if◌then◌else◌}
use mwptools.Common.Int.{ℤ, pos, negsuc}
use mwptools.Common.Result.{Result, ok, fault, null_pointer}
use mwptools.Speech.State.{espeak, initialize, set_voice_name, speak, State, log}

-- libespeak: whether its path is built and the library opens, which symbols it has, and what
-- `espeak_Initialize` returns (the sample rate, or -1).
pub record EspeakLib : Type 0 where
  pub path : Bool
  pub opens : Bool
  pub initialize : Option ℤ
  pub set_voice : Bool
  pub synth : Bool
  pub synchronize : Bool

abbrev pub is_minus_one : ℤ → Bool
is_minus_one (pos n) = false
is_minus_one (negsuc n) = n == 0

-- `if (g_module_symbol(.. "espeak_Initialize" ..)) res = (*esi)(..)`
abbrev pub initialized : Option ℤ → State → ℤ × State
initialized none s = (pos 0, s)
initialized (some res) s = (res, log initialize s)

-- The body of `if (res != -1)`. The second symbol is looked up only if the first was found.
abbrev pub load_symbols : EspeakLib → List ℕ → ℤ → State → ℤ × State
load_symbols lib voice res s =
    let told = if lib.set_voice then log (set_voice_name voice) s else s in
    (
      if lib.synth && lib.synchronize then pos 1 else res,
      record told { ess = lib.synth; esh = if lib.synth then lib.synchronize else s.esh },
    )

unfoldable pub ep_init : EspeakLib → List ℕ → State → ℤ × State
ep_init lib voice s =
    if lib.path && lib.opens
    then (let (res, s') = initialized lib.initialize (record s { handle = some espeak }) in
        if is_minus_one res then (res, s') else load_symbols lib voice res s')
    else (pos 0, if lib.path then record s { handle = none } else s)

-- A NULL pointer is called if `espeak_Synth` or `espeak_Synchronize` was not found.
unfoldable pub ep_say : List ℕ → State → Result State
ep_say text s = if s.ess && s.esh then ok (log (speak espeak text) s) else fault null_pointer
