-- ===== src/Speech/Safety.antt =====
-- When the functions of src/mwp/speech_wrapper.c follow no NULL pointer.
use mwptools.Common.{
  ℕ, ◌≡◌, refl, sym, subst, ◌∙◌, true, List, [], ◌∷◌, ◌⊎◌, inl, inr, Bool-cases, arith,
}
use mwptools.Common.Int.{ℤ}
use mwptools.Common.Result.{Result, ok, ◌>>=◌}
use mwptools.Speech.State.{Engine, silent, espeak, speechd, flite, State, start, log, speak}
use mwptools.Speech.Dispatch.{
  Build, Libs, is_none, speech_set_api, speech_init, speech_say, run_say, speech_close, run_close,
}
use mwptools.Speech.Ready.{IsSound, CanSay, Voiced, run_init-CanSay}

record IsReady (libs : Libs) (s : State) : Type 0 where
  paired : (s.say ≡ silent) ⊎ (s.say ≡ s.init)
  ready : CanSay s.say s
  voiced : Voiced libs s

-- What the Vala code asks for: another engine, with its start, a text, or the end.
pub data Request : Type 0 where
  restart : ℕ → List ℕ → Request
  say : List ℕ → Request
  close : Request

unfoldable pub serve : Build → Libs → Request → State → Result State
serve b libs (restart api voice) s =
    speech_init libs voice (speech_set_api b api s) >>= λ (res, s'). ok s'
serve b libs (say text) s = speech_say text s
serve b libs close s = ok (speech_close libs s)

unfoldable pub serve_all : Build → Libs → List Request → State → Result State
unfolding serve
serve_all b libs [] s = ok s
serve_all b libs (r ∷ rs) s = serve b libs r s >>= λ s'. serve_all b libs rs s'

speech_init-IsReady :
    (libs : Libs) (voice : List ℕ) (s : State)
    → IsSound libs
    → Voiced libs s
    → (s.say ≡ silent) ⊎ (s.say ≡ s.init)
    → (res : ℤ) × (s' : State) × (speech_init libs voice s ≡ ok (res, s')) × IsReady libs s'
unfolding speech_init
speech_init-IsReady libs voice s h v p =
    let (res, s', e, can, voiced, said, inited) = run_init-CanSay s.init libs voice s h v in
    elim (Bool-cases (is_none res)) [
      | inl failed ↦ (
        res,
        record s' { say = silent },
        rw (e, failed),
        record { paired = inl refl; ready = tt; voiced = voiced },
      )
      | inr works ↦ (
        res,
        s',
        rw (e, works),
        record {
          paired = ground arith;
          ready = elim p [
            | inl quiet ↦ subst (λ e. CanSay e s') (sym (said ∙ quiet)) tt
            | inr paired ↦ subst (λ e. CanSay e s') (sym (said ∙ paired)) (can works)
          ];
          voiced = voiced;
        },
      )
    ]

speech_set_api-paired :
    (b : Build) (api : ℕ) (s : State)
    → (s.say ≡ silent) ⊎ (s.say ≡ s.init)
    → let s' = speech_set_api b api s in
      ((s'.say ≡ silent) ⊎ (s'.say ≡ s'.init)) × (s'.voice ≡ s.voice) × (s'.fl_tts ≡ s.fl_tts)
unfolding speech_set_api
speech_set_api-paired b api s p = ground arith

run_say-ok :
    (e : Engine) (text : List ℕ) (s : State)
    → CanSay e s
    → (s' : State) × (run_say e text s ≡ ok s')
      × (CanSay e s')
      × (s'.say ≡ s.say)
      × (s'.init ≡ s.init)
      × (s'.voice ≡ s.voice)
      × (s'.fl_tts ≡ s.fl_tts)
unfolding run_say
run_say-ok silent text s c = (s, refl, tt, refl, refl, refl, refl)
run_say-ok espeak text s c = (log (speak espeak text) s, rw c, c, refl, refl, refl, refl)
run_say-ok speechd text s c = elim (Bool-cases s.spd) [
  | inl p ↦ (log (speak speechd text) s, rw (p, c p), c, refl, refl, refl, refl)
  | inr p ↦ (s, rw p, c, refl, refl, refl, refl)
]
run_say-ok flite text s c = (log (speak flite text) s, rw c, c, refl, refl, refl, refl)

run_close-frame :
    (e : Engine) (libs : Libs) (s : State)
    → let s' = run_close e libs s in
      (s'.say ≡ s.say)
      × (s'.init ≡ s.init)
      × (s'.voice ≡ s.voice)
      × (s'.fl_tts ≡ s.fl_tts)
      × (s'.ess ≡ s.ess)
      × (s'.esh ≡ s.esh)
      × (s'.ssay ≡ s.ssay)
      × (s'.spd ≡ true → s.spd ≡ true)
unfolding run_close
run_close-frame silent libs s = (refl, refl, refl, refl, refl, refl, refl, λ e. e)
run_close-frame espeak libs s = (refl, refl, refl, refl, refl, refl, refl, λ e. e)
run_close-frame speechd libs s = ground arith
run_close-frame flite libs s = (refl, refl, refl, refl, refl, refl, refl, λ e. e)

CanSay-frame :
    (e : Engine) (s s' : State)
    → CanSay e s
    → s'.ess ≡ s.ess
    → s'.esh ≡ s.esh
    → s'.ssay ≡ s.ssay
    → (s'.spd ≡ true → s.spd ≡ true)
    → s'.voice ≡ s.voice
    → s'.fl_tts ≡ s.fl_tts
    → CanSay e s'
CanSay-frame silent s s' c a b d e f g = tt
CanSay-frame espeak s s' c a b d e f g = ground arith
CanSay-frame speechd s s' c a b d e f g = ground arith
CanSay-frame flite s s' c a b d e f g = ground arith

serve-IsReady :
    (b : Build) (libs : Libs) (r : Request) (s : State)
    → IsSound libs
    → IsReady libs s
    → (s' : State) × (serve b libs r s ≡ ok s') × IsReady libs s'
unfolding serve
serve-IsReady b libs (restart api voice) s h is =
    let s1 : State = speech_set_api b api s in
    let (paired, voiced, tts) = speech_set_api-paired b api s is.paired in
    let (res, s', e, is') =
      speech_init-IsReady libs voice s1 h
        (λ v. (tts ∙ (is.voiced (sym voiced ∙ v)).0, (is.voiced (sym voiced ∙ v)).1)) paired in
    (s', rw e, is')
serve-IsReady b libs (say text) s h is =
    unfold speech_say in
    let (s', e, can, said, inited, voiced, tts) = run_say-ok s.say text s is.ready in
    (
      s',
      e,
      record {
        paired = ground (arith, is.paired);
        ready = subst (λ e. CanSay e s') (sym said) can;
        voiced = λ v. (tts ∙ (is.voiced (sym voiced ∙ v)).0, (is.voiced (sym voiced ∙ v)).1);
      },
    )
serve-IsReady b libs close s h is =
    unfold speech_close in
    let (said, inited, voiced, tts, ess, esh, ssay, spd) = run_close-frame s.close libs s in
    let s' : State = run_close s.close libs s in
    (
      s',
      refl,
      record {
        paired = ground (arith, is.paired);
        ready =
            subst (λ e. CanSay e s') (sym said)
              (CanSay-frame s.say s s' is.ready ess esh ssay spd voiced tts);
        voiced = λ v. (tts ∙ (is.voiced (sym voiced ∙ v)).0, (is.voiced (sym voiced ∙ v)).1);
      },
    )

serve_all-IsReady :
    (b : Build) (libs : Libs) (rs : List Request) (s : State)
    → IsSound libs
    → IsReady libs s
    → (s' : State) × (serve_all b libs rs s ≡ ok s') × IsReady libs s'
unfolding serve_all
serve_all-IsReady b libs [] s h is = (s, refl, is)
serve_all-IsReady b libs (r ∷ rs) s h is =
    let (s1, e, is1) = serve-IsReady b libs r s h is in
    let (s2, f, is2) = serve_all-IsReady b libs rs s1 h is1 in (s2, rw (e, f), is2)

start-IsReady : {libs : Libs} → IsReady libs start
start-IsReady = record { paired = inl refl; ready = tt; voiced = ground arith }

-- From the program's start, every sequence of requests is served without following a NULL pointer,
-- whatever the build compiles in, when the machine's libraries are sound: a libespeak that opens
-- starts without an error and has its two functions for speaking, and flite's built-in voice can be
-- had. A request restarts with an engine and a voice, says a text, or closes.
pub serve_all-ok :
    (b : Build) (libs : Libs) (rs : List Request)
    → IsSound libs
    → (s : State) × (serve_all b libs rs start ≡ ok s)
serve_all-ok b libs rs h =
    let (s, e, _) = serve_all-IsReady b libs rs start h start-IsReady in (s, e)
