-- ===== src/Speech/State.antt =====
-- The static variables of src/mwp/speech_wrapper.c, and the calls that reach an engine.
use mwptools.Common.{ℕ, Bool, false, Option, none, List, [], ◌∷◌}

-- The functions of one engine; `silent` stands for `ss_init`, `ss_say` and `ss_close`.
pub data Engine : Type 0 where
  silent espeak speechd flite : Engine

-- `SPDVoiceType`
pub data VoiceType : Type 0 where
  male1 male2 male3 female1 female2 female3 child_male child_female : VoiceType

-- A call of a function of an engine's library. Texts are lists of bytes.
pub data Call : Type 0 where
  initialize connect set_language set_volume notify cancel_all hang_up : Call
  set_voice_name : List ℕ → Call
  set_voice_type : VoiceType → Call
  speak : Engine → List ℕ → Call
  load_voice : List ℕ → Call
  stretch : List ℕ → Call
  built_in_voice : Call

-- `ess`, `esh`, `ssay`, `fl_tts`: whether the pointer is set. `spd`, `voice`: whether it is not NULL.
-- `handle`: the library that was opened last. `calls`: the calls made so far, the latest first.
pub record State : Type 0 where
  pub init : Engine
  pub say : Engine
  pub close : Engine
  pub handle : Option Engine
  pub ess : Bool
  pub esh : Bool
  pub spd : Bool
  pub ssay : Bool
  pub fl_tts : Bool
  pub voice : Bool
  pub calls : List Call

-- The static initial values.
abbrev pub start : State
start = record {
  init = silent;
  say = silent;
  close = silent;
  handle = none;
  ess = false;
  esh = false;
  spd = false;
  ssay = false;
  fl_tts = false;
  voice = false;
  calls = [];
}

abbrev pub log : Call → State → State
log c s = record s { calls = c ∷ s.calls }
