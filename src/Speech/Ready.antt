-- ===== src/Speech/Ready.antt =====
-- What each engine of src/mwp/speech_wrapper.c has set up when it was started.
use mwptools.Common.{
  ℕ, ◌≡◌, refl, sym, ◌∙◌, Bool, true, false, ◌&&◌, Option, none, some, List, inl, inr, Bool-cases,
  if◌then◌else◌, arith,
}
use mwptools.Common.Int.{ℤ, pos}
use mwptools.Common.Result.{ok}
use mwptools.Speech.State.{Engine, silent, espeak, speechd, flite, State, log, stretch, initialize}
use mwptools.Speech.Espeak.{is_minus_one, ep_init}
use mwptools.Speech.Speechd.{sd_init}
use mwptools.Speech.Flite.{
  FliteLib, symbol, parts, load, fall_back, tune, out, is_usable, choose, fl_init,
}
use mwptools.Speech.Dispatch.{Libs, is_none, run_init}

abbrev is_error : Option ℤ → Bool
is_error none = false
is_error (some n) = is_minus_one n

-- A libespeak that opens starts without an error and has both functions to speak with, and
-- `register_cmu_us_slt` returns a voice.
pub record IsSound (libs : Libs) : Type 0 where
  pub starts : is_error libs.espeak.initialize ≡ false
  pub synth : libs.espeak.synth ≡ true
  pub synchronize : libs.espeak.synchronize ≡ true
  pub has_voice : symbol libs.flite.slt ≡ true
  pub registers : libs.flite.registers ≡ true

-- The pointers that an engine's function for speaking follows are set.
abbrev pub CanSay : Engine → State → Type 0
CanSay silent s = Unit
CanSay espeak s = (s.ess && s.esh) ≡ true
CanSay speechd s = s.spd ≡ true → s.ssay ≡ true
CanSay flite s = (s.fl_tts && s.voice) ≡ true

ep_init-CanSay :
    (libs : Libs) (voice : List ℕ) (s : State)
    → IsSound libs
    → let (res, s') = ep_init libs.espeak voice s in
      (is_none res ≡ false → (s'.ess && s'.esh) ≡ true)
      × (s'.voice ≡ s.voice)
      × (s'.fl_tts ≡ s.fl_tts)
      × (s'.say ≡ s.say)
      × (s'.init ≡ s.init)
unfolding ep_init
ep_init-CanSay libs voice s h = ground arith

sd_init-CanSay :
    (libs : Libs) (voice : List ℕ) (s : State)
    → let (res, s') = sd_init libs.speechd voice s in
      (is_none (pos res) ≡ false → s'.spd ≡ true → s'.ssay ≡ true)
      × (s'.voice ≡ s.voice)
      × (s'.fl_tts ≡ s.fl_tts)
      × (s'.say ≡ s.say)
      × (s'.init ≡ s.init)
unfolding sd_init
sd_init-CanSay libs voice s = ground arith

-- What starting flite leaves behind.
record Started (libs : Libs) (s : State) (res : ℕ) (s' : State) : Type 0 where
  speaks : is_none (pos res) ≡ false → (s'.fl_tts && s'.voice) ≡ true
  voiced : s'.voice ≡ true → (s'.fl_tts ≡ true) × (libs.flite.tts ≡ true)
  say : s'.say ≡ s.say
  init : s'.init ≡ s.init

fall_back-voice :
    (libs : Libs) (s : State)
    → IsSound libs
    → let s' = fall_back libs.flite s in
      (s'.voice ≡ true) × (s'.fl_tts ≡ s.fl_tts) × (s'.say ≡ s.say) × (s'.init ≡ s.init)
fall_back-voice libs s h = ground arith

tune-ok :
    (lib : FliteLib) (factor : Option (List ℕ)) (s : State)
    → s.voice ≡ true
    → (s' : State) × (tune lib factor s ≡ ok s')
      × (s'.voice ≡ true)
      × (s'.fl_tts ≡ s.fl_tts)
      × (s'.say ≡ s.say)
      × (s'.init ≡ s.init)
tune-ok lib none s v = (s, rw v, v, refl, refl, refl)
tune-ok lib (some p) s v =
    let s' = if lib.nonzero p then log (stretch p) s else s in
    (s', rw v, ground arith, ground arith, ground arith, ground arith)

load-frame :
    (lib : FliteLib) (path : Option (List ℕ)) (s : State)
    → let s' = load lib path s in (s'.fl_tts ≡ s.fl_tts) × (s'.say ≡ s.say) × (s'.init ≡ s.init)
load-frame lib none s = (refl, refl, refl)
load-frame lib (some p) s = (refl, refl, refl)

choose-ok :
    (libs : Libs) (name : Option (List ℕ)) (s : State)
    → IsSound libs
    → (s' : State) × (choose libs.flite name s ≡ ok s')
      × (s'.voice ≡ true)
      × (s'.fl_tts ≡ s.fl_tts)
      × (s'.say ≡ s.say)
      × (s'.init ≡ s.init)
choose-ok libs name s h =
    let loaded = load libs.flite (parts name).0 s in
    let (tts, said, inited) = load-frame libs.flite (parts name).0 s in
    let (voice, tts', said', inited') = fall_back-voice libs loaded h in
    let (s', e, v, t, y, n) =
      tune-ok libs.flite (parts name).1 (fall_back libs.flite loaded) voice in
    (s', e, v, t ∙ tts' ∙ tts, y ∙ said' ∙ said, n ∙ inited' ∙ inited)

out-Started :
    (libs : Libs) (s s' : State)
    → (s'.voice ≡ true → (s'.fl_tts ≡ true) × (libs.flite.tts ≡ true))
    → s'.say ≡ s.say
    → s'.init ≡ s.init
    → Started libs s (out s').0 s'
out-Started libs s s' v e f = ground arith

fl_init-Started :
    (libs : Libs) (voice : List ℕ) (s : State)
    → IsSound libs
    → (s.voice ≡ true → (s.fl_tts ≡ true) × (libs.flite.tts ≡ true))
    → (res : ℕ) × (s' : State) × (fl_init libs.flite (some voice) s ≡ ok (res, s'))
      × Started libs s res s'
unfolding fl_init
fl_init-Started libs voice s h v = elim (Bool-cases (libs.flite.version_2 && libs.flite.path)) [
  | inr old ↦ ((out s).0, s, rw old, out-Started libs s s v refl refl)
  | inl new ↦
      let s1 : State = record s { handle = if libs.flite.opens then some flite else none } in
      elim (Bool-cases (libs.flite.opens && libs.flite.init)) [
        | inr shut ↦ ((out s1).0, s1, rw (new, shut), out-Started libs s s1 v refl refl)
        | inl open' ↦
            let s2 : State = record (log initialize s1) { fl_tts = libs.flite.tts } in
            elim (Bool-cases (is_usable libs.flite)) [
              | inr unfit ↦ (
                (out s2).0,
                s2,
                rw (new, open', unfit),
                out-Started libs s s2 (λ e. ground (arith, v e)) refl refl,
              )
              | inl fit ↦
                  let (s3, e, _, tts, said, inited) = choose-ok libs (some voice) s2 h in
                  let has_tts : libs.flite.tts ≡ true = ground arith in
                  (
                    (out s3).0,
                    s3,
                    rw (new, open', fit, e),
                    out-Started libs s s3 (λ _. (tts ∙ has_tts, has_tts)) said inited,
                  )
            ]
      ]
]

-- A voice is kept only from a start of flite that also found its function to speak with.
abbrev pub Voiced : Libs → State → Type 0
Voiced libs s = s.voice ≡ true → (s.fl_tts ≡ true) × (libs.flite.tts ≡ true)

-- Starting an engine follows no NULL pointer, and where it does not fail the engine can speak.
pub run_init-CanSay :
    (e : Engine) (libs : Libs) (voice : List ℕ) (s : State)
    → IsSound libs
    → Voiced libs s
    → (res : ℤ) × (s' : State) × (run_init e libs voice s ≡ ok (res, s'))
      × (is_none res ≡ false → CanSay e s')
      × Voiced libs s'
      × (s'.say ≡ s.say)
      × (s'.init ≡ s.init)
unfolding run_init
run_init-CanSay silent libs voice s h v = (pos 0, s, refl, λ _. tt, v, refl, refl)
run_init-CanSay espeak libs voice s h v =
    let (can, voiced, tts, said, inited) = ep_init-CanSay libs voice s h in
    let (res, s') = ep_init libs.espeak voice s in
    (res, s', refl, can, λ e. (tts ∙ (v (sym voiced ∙ e)).0, (v (sym voiced ∙ e)).1), said, inited)
run_init-CanSay speechd libs voice s h v =
    let (can, voiced, tts, said, inited) = sd_init-CanSay libs voice s in
    let (res, s') = sd_init libs.speechd voice s in
    (
      pos res,
      s',
      refl,
      can,
      λ e. (tts ∙ (v (sym voiced ∙ e)).0, (v (sym voiced ∙ e)).1),
      said,
      inited,
    )
run_init-CanSay flite libs voice s h v =
    let (res, s', e, started) = fl_init-Started libs voice s h v in
    (pos res, s', rw e, started.speaks, started.voiced, started.say, started.init)
