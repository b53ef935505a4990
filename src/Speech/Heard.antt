-- ===== src/Speech/Heard.antt =====
-- What is heard of a program that starts engines and says texts through src/mwp/speech_wrapper.c.
use mwptools.Common.{
  ℕ, ◌≡◌, refl, sym, ap, ap₂, ◌∙◌, Bool, true, false, List, [], ◌∷◌, if◌then◌else◌, Bool-cases, inl,
  inr,
}
use mwptools.Common.Result.{ok}
use mwptools.Speech.State.{Engine, silent, espeak, speechd, flite, State, start, log, speak}
use mwptools.Speech.Dispatch.{Build, Libs, speech_set_api, speech_say, run_say}
use mwptools.Speech.Ready.{IsSound, CanSay}
use mwptools.Speech.Safety.{Request, restart, say, close, serve, serve_all}
use mwptools.Speech.Starts.{answers, said}
use mwptools.Speech.Speaker.{
  chosen, IsSpeaker, start-IsSpeaker, speech_set_api-chosen, speech_init-IsSpeaker,
}

-- The texts that are spoken, each with its engine, the latest first. The second engine is the one that
-- is selected, the last list what was spoken before.
abbrev pub heard :
    Build → Libs → Engine → List Request → List (Engine × List ℕ) → List (Engine × List ℕ)
heard b libs e [] before = before
heard b libs e (restart api voice ∷ rs) before = heard b libs (chosen b api e) rs before
heard b libs e (say text ∷ rs) before =
    heard b libs e rs (if answers libs e then (e, text) ∷ before else before)
heard b libs e (close ∷ rs) before = heard b libs e rs before

abbrev pub never_closes : List Request → Bool
never_closes [] = true
never_closes (restart api voice ∷ rs) = never_closes rs
never_closes (say text ∷ rs) = never_closes rs
never_closes (close ∷ rs) = false

-- What a request leaves of the invariant, with the texts spoken.
record Answered (b : Build) (libs : Libs) (r : Request) (s s' : State) : Type 0 where
  is : IsSpeaker libs s'
  next :
      (rs : List Request)
      → heard b libs s'.init rs (said s'.calls) ≡ heard b libs s.init (r ∷ rs) (said s.calls)

restart-Answered :
    (b : Build) (libs : Libs) (api : ℕ) (voice : List ℕ) (s : State)
    → IsSound libs
    → IsSpeaker libs s
    → (s' : State) × (serve b libs (restart api voice) s ≡ ok s')
      × Answered b libs (restart api voice) s s'
unfolding serve
restart-Answered b libs api voice s h is =
    let s1 : State = speech_set_api b api s in
    let (selects, paired, calls, spd, v, tts) = speech_set_api-chosen b api s in
    let speaks : answers libs s1.init ≡ true → s1.say ≡ s1.init = λ a. elim paired [
      | inl both ↦ both
      | inr kept ↦
          let before : answers libs s.init ≡ true = ap (answers libs) (sym kept.1) ∙ a in
          let said_before : s.say ≡ s.init = is.speaker ∙ rw before refl in
          kept.0 ∙ said_before ∙ sym kept.1
    ] in
    let (res, s', e, is', inits, quiet) =
      speech_init-IsSpeaker libs voice s1 h (λ p. is.connectable (sym spd ∙ p))
        (λ p. is.chosen_voice (sym v ∙ p))
        (λ p. (tts ∙ (is.loaded (sym v ∙ p)).0, (is.loaded (sym v ∙ p)).1)) speaks in
    (
      s',
      rw e refl,
      record {
        is = is';
        next = λ rs. ap₂ (λ k l. heard b libs k rs l) (inits ∙ selects) (quiet ∙ ap said calls);
      },
    )

-- An engine whose library answers speaks a text.
run_say-heard :
    (libs : Libs) (e : Engine) (text : List ℕ) (s : State)
    → answers libs e ≡ true
    → CanSay e s
    → (answers libs speechd ≡ true → e ≡ speechd → s.spd ≡ true)
    → run_say e text s ≡ ok (log (speak e text) s)
unfolding run_say
run_say-heard libs silent text s a c j = absurd (cc)
run_say-heard libs espeak text s a c j = rw c refl
run_say-heard libs speechd text s a c j = rw (j a refl, c (j a refl)) refl
run_say-heard libs flite text s a c j = rw c refl

CanSay-log :
    (e k : Engine) (text : List ℕ) (s : State) → CanSay e s → CanSay e (log (speak k text) s)
CanSay-log silent k text s c = tt
CanSay-log espeak k text s c = c
CanSay-log speechd k text s c = c
CanSay-log flite k text s c = c

say-Answered :
    (b : Build) (libs : Libs) (text : List ℕ) (s : State)
    → IsSpeaker libs s
    → (s' : State) × (serve b libs (say text) s ≡ ok s') × Answered b libs (say text) s s'
unfolding serve speech_say
say-Answered b libs text s is = elim (Bool-cases (answers libs s.init)) [
  | inr dumb ↦
      let quiet : s.say ≡ silent = is.speaker ∙ rw dumb refl in
      (s, rw quiet refl, record { is = is; next = λ rs. rw dumb refl })
  | inl answer ↦
      let speaks : s.say ≡ s.init = is.speaker ∙ rw answer refl in
      let can : answers libs s.say ≡ true = ap (answers libs) speaks ∙ answer in
      (
        log (speak s.say text) s,
        run_say-heard libs s.say text s can is.ready is.joined,
        record {
          is = record {
            speaker = is.speaker;
            ready = CanSay-log s.say s.say text s is.ready;
            joined = is.joined;
            connectable = is.connectable;
            chosen_voice = is.chosen_voice;
            loaded = is.loaded;
          };
          next =
              λ rs. rw answer (ap (λ k. heard b libs s.init rs ((k, text) ∷ said s.calls)) speaks);
        },
      )
]

serve_all-Answered :
    (b : Build) (libs : Libs) (rs : List Request) (s : State)
    → IsSound libs
    → IsSpeaker libs s
    → never_closes rs ≡ true
    → (s' : State) × (serve_all b libs rs s ≡ ok s')
      × (said s'.calls ≡ heard b libs s.init rs (said s.calls))
unfolding serve_all
serve_all-Answered b libs [] s h is open' = (s, refl, refl)
serve_all-Answered b libs (restart api voice ∷ rs) s h is open' =
    let (s1, e1, a) = restart-Answered b libs api voice s h is in
    let (s2, e2, hears) = serve_all-Answered b libs rs s1 h a.is open' in
    (s2, rw e1 e2, hears ∙ a.next rs)
serve_all-Answered b libs (say text ∷ rs) s h is open' =
    let (s1, e1, a) = say-Answered b libs text s is in
    let (s2, e2, hears) = serve_all-Answered b libs rs s1 h a.is open' in
    (s2, rw e1 e2, hears ∙ a.next rs)
serve_all-Answered b libs (close ∷ rs) s h is open' = absurd (cc)

-- A program that selects and starts engines and says texts in any order, and does not close, is heard
-- as its requests alone tell, on a machine whose libraries are sound: each text is spoken once, in
-- order, by the engine that was last asked for among those that the build has, exactly when the library
-- of that engine can be started. The pointers, and what earlier engines left in the other variables,
-- make no difference.
pub serve_all-heard :
    (b : Build) (libs : Libs) (rs : List Request)
    → IsSound libs
    → never_closes rs ≡ true
    → (s : State) × (serve_all b libs rs start ≡ ok s) × (said s.calls ≡ heard b libs silent rs [])
serve_all-heard b libs rs h open' =
    serve_all-Answered b libs rs start h (start-IsSpeaker libs) open'
