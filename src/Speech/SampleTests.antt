-- ===== src/Speech/SampleTests.antt =====
-- Runs of src/samples/flite/ftest.c with a library of the old version, whose second voice is there.
use mwptools.Common.{◌≡◌, refl, true, false, none, some, ℕ, List, [], ◌∷◌, arith}
use mwptools.Common.CString.{codes}
use mwptools.Common.Result.{ok, fault, past_end, uninitialized}
use mwptools.Speech.State.{flite, initialize, built_in_voice, speak}
use mwptools.Speech.Sample.{SampleLib, Talk, main, fl_init}
use mwptools.Speech.Lines.{input, main-spoken}

abbrev old_flite : SampleLib
old_flite = record {
  path = true;
  opens = true;
  init = true;
  add_lang = none;
  voice_load = none;
  set_float = true;
  string = true;
  tts = true;
  usenglish = some true;
  cmulex = some false;
  slt = none;
  kal = some true;
  nonzero = λ p. true;
  registers = true;
}

-- The last line of src/samples/flite/ftest.c's input has no newline and loses its last byte.
last_line :
    main old_flite none (codes "one\ntwo")
    ≡ ok (record {
      voice = true;
      fl_tts = true;
      calls =
          speak flite (codes "tw") ∷ speak flite (codes "one") ∷ built_in_voice ∷ initialize ∷ [];
    })
unfolding main fl_init
last_line = refl

-- A byte 0 at the start of a line: the program writes in front of its array.
empty_text : main old_flite none (0 ∷ b'\n' ∷ []) ≡ fault past_end
unfolding main fl_init
empty_text = refl

-- Neither library of a voice opens.
no_voice : main (record old_flite { kal = none }) none [] ≡ fault uninitialized
unfolding main fl_init
no_voice = refl

abbrev two_lines : List (List ℕ)
two_lines = codes "one" ∷ codes "two" ∷ []

abbrev ready : Talk
ready = record { voice = true; fl_tts = true; calls = built_in_voice ∷ initialize ∷ [] }

starts : fl_init old_flite none ≡ ok ready
unfolding fl_init
starts = refl

main-spoken_example :
    main old_flite none (input two_lines)
    ≡ ok (record ready {
      calls =
          speak flite (codes "two") ∷ speak flite (codes "one") ∷ built_in_voice ∷ initialize ∷ [];
    })
main-spoken_example =
    main-spoken old_flite none two_lines ready starts refl
      (refl, omega arith, (refl, omega arith, tt))
