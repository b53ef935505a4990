-- ===== src/Speech/Starts.antt =====
-- What a start of an engine leaves behind in src/mwp/speech_wrapper.c, from what its library answers.
use mwptools.Common.{
  ℕ, ◌≡◌, refl, sym, ap, ◌∙◌, Bool, true, false, not, ◌&&◌, Option, none, some, List, [], ◌∷◌,
  if◌then◌else◌, arith, Bool-cases, inl, inr,
}
use mwptools.Common.Int.{ℤ, pos}
use mwptools.Common.Result.{Result, ok, fault}
use mwptools.Speech.State.{
  Engine, silent, espeak, speechd, flite, State, Call, initialize, connect, set_language,
  set_volume, notify, cancel_all, hang_up, set_voice_name, set_voice_type, speak, load_voice,
  stretch, built_in_voice, log,
}
use mwptools.Speech.Espeak.{ep_init}
use mwptools.Speech.Speechd.{sd_init, set_up}
use mwptools.Speech.Flite.{
  FliteLib, symbol, parts, load, fall_back, tune, out, is_usable, choose, fl_init,
}
use mwptools.Speech.Dispatch.{Libs, is_none, run_init}
use mwptools.Speech.Ready.{IsSound}

-- Whether an engine's library can be started, from the machine alone.
abbrev pub answers : Libs → Engine → Bool
answers libs silent = false
answers libs espeak = libs.espeak.path && libs.espeak.opens
answers libs speechd =
    (libs.speechd.path && libs.speechd.opens)
    && ((libs.speechd.open2 && libs.speechd.connects) && libs.speechd.say)
answers libs flite =
    (libs.flite.version_2 && libs.flite.path)
    && ((libs.flite.opens && libs.flite.init) && is_usable libs.flite)

-- The texts among the calls, with the engine that speaks them.
abbrev pub said : List Call → List (Engine × List ℕ)
said [] = []
said (initialize ∷ cs) = said cs
said (connect ∷ cs) = said cs
said (set_language ∷ cs) = said cs
said (set_volume ∷ cs) = said cs
said (notify ∷ cs) = said cs
said (cancel_all ∷ cs) = said cs
said (hang_up ∷ cs) = said cs
said (set_voice_name v ∷ cs) = said cs
said (set_voice_type t ∷ cs) = said cs
said (speak e text ∷ cs) = (e, text) ∷ said cs
said (load_voice p ∷ cs) = said cs
said (stretch p ∷ cs) = said cs
said (built_in_voice ∷ cs) = said cs

-- A connection to speechd is one that the library makes.
abbrev pub IsConnectable : Libs → State → Type 0
IsConnectable libs s = s.spd ≡ true → (libs.speechd.open2 && libs.speechd.connects) ≡ true

-- A voice of flite is one that an earlier start has chosen.
abbrev pub IsVoiced : Libs → State → Type 0
IsVoiced libs s = s.voice ≡ true → answers libs flite ≡ true

-- A start of an engine says nothing, and fails exactly when its library does not answer.
pub record Started (libs : Libs) (e : Engine) (s : State) (res : ℤ) (s' : State) : Type 0 where
  pub result : is_none res ≡ not (answers libs e)
  pub heard : said s'.calls ≡ said s.calls
  pub connectable : IsConnectable libs s'
  pub voiced : IsVoiced libs s'

ep_init-Started :
    (libs : Libs) (voice : List ℕ) (s : State)
    → IsSound libs
    → IsConnectable libs s
    → IsVoiced libs s
    → let (res, s') = ep_init libs.espeak voice s in Started libs espeak s res s'
unfolding ep_init
ep_init-Started libs voice s h c v = ground (arith, h.starts, h.synth, h.synchronize)

sd_init-Started :
    (libs : Libs) (voice : List ℕ) (s : State)
    → IsConnectable libs s
    → IsVoiced libs s
    → let (res, s') = sd_init libs.speechd voice s in
      Started libs speechd s (pos res) s' × (answers libs speechd ≡ true → s'.spd ≡ true)
unfolding sd_init set_up
sd_init-Started libs voice s c v = ground arith

load-heard :
    (lib : FliteLib) (path : Option (List ℕ)) (s : State)
    → said (load lib path s).calls ≡ said s.calls
load-heard lib none s = refl
load-heard lib (some p) s = refl

load-spd : (lib : FliteLib) (path : Option (List ℕ)) (s : State) → (load lib path s).spd ≡ s.spd
load-spd lib none s = refl
load-spd lib (some p) s = refl

fall_back-heard :
    (lib : FliteLib) (s : State)
    → symbol lib.slt ≡ true
    → lib.registers ≡ true
    → let s' = fall_back lib s in
      (s'.voice ≡ true) × (said s'.calls ≡ said s.calls) × (s'.spd ≡ s.spd)
fall_back-heard lib s slt registers = ground arith

tune-heard :
    (lib : FliteLib) (factor : Option (List ℕ)) (s : State)
    → s.voice ≡ true
    → (s' : State) × (tune lib factor s ≡ ok s')
      × (s'.voice ≡ true)
      × (said s'.calls ≡ said s.calls)
      × (s'.spd ≡ s.spd)
tune-heard lib none s v = (s, rw v, v, refl, refl)
tune-heard lib (some p) s v =
    let s' = if lib.nonzero p then log (stretch p) s else s in
    (s', rw v, ground arith, ground arith, ground arith)

choose-heard :
    (lib : FliteLib) (name : Option (List ℕ)) (s : State)
    → symbol lib.slt ≡ true
    → lib.registers ≡ true
    → (s' : State) × (choose lib name s ≡ ok s')
      × (s'.voice ≡ true)
      × (said s'.calls ≡ said s.calls)
      × (s'.spd ≡ s.spd)
choose-heard lib name s slt registers =
    let loaded = load lib (parts name).0 s in
    let quiet : said loaded.calls ≡ said s.calls = load-heard lib (parts name).0 s in
    let same : loaded.spd ≡ s.spd = load-spd lib (parts name).0 s in
    let (voice, quiet', same') = fall_back-heard lib loaded slt registers in
    let (s', e, v, quiet'', same'') = tune-heard lib (parts name).1 (fall_back lib loaded) voice in
    (s', e, v, quiet'' ∙ quiet' ∙ quiet, same'' ∙ same' ∙ same)

fl_init-Started :
    (libs : Libs) (voice : List ℕ) (s : State)
    → IsSound libs
    → IsConnectable libs s
    → IsVoiced libs s
    → (res : ℕ) × (s' : State) × (fl_init libs.flite (some voice) s ≡ ok (res, s'))
      × Started libs flite s (pos res) s'
unfolding fl_init
fl_init-Started libs voice s h c v = elim (Bool-cases (libs.flite.version_2 && libs.flite.path)) [
  | inr old ↦ ((out s).0, s, rw old, ground (arith, v, c))
  | inl new ↦
      let s1 : State = record s { handle = if libs.flite.opens then some flite else none } in
      elim (Bool-cases (libs.flite.opens && libs.flite.init)) [
        | inr shut ↦ ((out s1).0, s1, rw (new, shut), ground (arith, v, c))
        | inl open' ↦
            let s2 : State = record (log initialize s1) { fl_tts = libs.flite.tts } in
            elim (Bool-cases (is_usable libs.flite)) [
              | inr unfit ↦ ((out s2).0, s2, rw (new, open', unfit), ground (arith, v, c))
              | inl fit ↦
                  let (s3, e, on, quiet, same) =
                    choose-heard libs.flite (some voice) s2 h.has_voice h.registers in
                  (
                    (out s3).0,
                    s3,
                    rw (new, open', fit, e),
                    record {
                      result = rw (on, new, open', fit) refl;
                      heard = quiet;
                      connectable = λ p. c (sym same ∙ p);
                      voiced = λ p. rw (new, open', fit) refl;
                    },
                  )
            ]
      ]
]

-- Two results of one run.
value_or : {A : Type 0} → A → Result A → A
value_or d (ok a) = a
value_or d (fault e) = d

pub ok-injective : {A : Type 0} {a b : A} → ok a ≡ ok b → a ≡ b
unfolding value_or
ok-injective {A} {a} {b} e = ap (value_or a) e

pub run_init-Started :
    (e : Engine) (libs : Libs) (voice : List ℕ) (s : State)
    → IsSound libs
    → IsConnectable libs s
    → IsVoiced libs s
    → (res : ℤ) × (s' : State) × (run_init e libs voice s ≡ ok (res, s'))
      × Started libs e s res s'
      × (answers libs speechd ≡ true → e ≡ speechd → s'.spd ≡ true)
unfolding run_init
run_init-Started silent libs voice s h c v = (
  pos 0,
  s,
  refl,
  record { result = refl; heard = refl; connectable = c; voiced = v },
  λ a p. absurd (cc),
)
run_init-Started espeak libs voice s h c v =
    let started = ep_init-Started libs voice s h c v in
    let (res, s') = ep_init libs.espeak voice s in (res, s', refl, started, λ a p. absurd (cc))
run_init-Started speechd libs voice s h c v =
    let (started, joined) = sd_init-Started libs voice s c v in
    let (res, s') = sd_init libs.speechd voice s in (pos res, s', refl, started, λ a p. joined a)
run_init-Started flite libs voice s h c v =
    let (res, s', e, started) = fl_init-Started libs voice s h c v in
    (pos res, s', rw e refl, started, λ a p. absurd (cc))
