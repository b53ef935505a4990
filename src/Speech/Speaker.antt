-- ===== src/Speech/Speaker.antt =====
-- Which engine speaks after a start in src/mwp/speech_wrapper.c.
use mwptools.Common.{
  ℕ, ◌-◌, ◌≡◌, ◌⊎◌, refl, sym, ap, ◌∙◌, subst, Bool, true, false, not, ◌&&◌, List, leb,
  if◌then◌else◌, arith, Bool-cases, inl, inr,
}
use mwptools.Common.Int.{ℤ}
use mwptools.Common.Result.{ok}
use mwptools.Speech.State.{Engine, silent, speechd, State, start}
use mwptools.Speech.Dispatch.{
  Build, Libs, is_none, get_speech_api_mask, speech_set_api, speech_init,
}
use mwptools.Speech.Ready.{IsSound, CanSay, Voiced, run_init-CanSay}
use mwptools.Speech.Apis.{engine_of, has_bit}
use mwptools.Speech.Starts.{answers, said, IsConnectable, IsVoiced, ok-injective, run_init-Started}

-- Whether the build has the engine of an API number.
abbrev pub offers : Build → ℕ → Bool
offers b api = leb 1 api && (leb api 3 && has_bit (get_speech_api_mask b) (api - 1))

-- The engine that is selected when a number is asked for.
abbrev pub chosen : Build → ℕ → Engine → Engine
chosen b api e = if offers b api then engine_of api else e

-- The engine that is selected speaks, if its library answers.
pub record IsSpeaker (libs : Libs) (s : State) : Type 0 where
  pub speaker : s.say ≡ (if answers libs s.init then s.init else silent)
  pub ready : CanSay s.say s
  pub joined : answers libs speechd ≡ true → s.say ≡ speechd → s.spd ≡ true
  pub connectable : IsConnectable libs s
  pub chosen_voice : IsVoiced libs s
  pub loaded : Voiced libs s

pub start-IsSpeaker : (libs : Libs) → IsSpeaker libs start
start-IsSpeaker libs = record {
  speaker = refl;
  ready = tt;
  joined = λ a p. absurd (cc);
  connectable = λ p. absurd (cc);
  chosen_voice = λ p. absurd (cc);
  loaded = λ p. absurd (cc);
}

-- What a change of the engine leaves.
pub speech_set_api-chosen :
    (b : Build) (api : ℕ) (s : State)
    → let s' = speech_set_api b api s in
      (s'.init ≡ chosen b api s.init)
      × ((s'.say ≡ s'.init) ⊎ ((s'.say ≡ s.say) × (s'.init ≡ s.init)))
      × (s'.calls ≡ s.calls)
      × (s'.spd ≡ s.spd)
      × (s'.voice ≡ s.voice)
      × (s'.fl_tts ≡ s.fl_tts)
unfolding speech_set_api get_speech_api_mask
speech_set_api-chosen b api s = ground arith

-- What a start leaves of the pointers.
abbrev Kept : Libs → State → ℤ × State → Type 0
Kept libs s (res, s') =
    (is_none res ≡ false → CanSay s.init s')
    × Voiced libs s'
    × (s'.say ≡ s.say)
    × (s'.init ≡ s.init)

pub speech_init-IsSpeaker :
    (libs : Libs) (voice : List ℕ) (s : State)
    → IsSound libs
    → IsConnectable libs s
    → IsVoiced libs s
    → Voiced libs s
    → (answers libs s.init ≡ true → s.say ≡ s.init)
    → (res : ℤ) × (s' : State) × (speech_init libs voice s ≡ ok (res, s'))
      × IsSpeaker libs s'
      × (s'.init ≡ s.init)
      × (said s'.calls ≡ said s.calls)
unfolding speech_init
speech_init-IsSpeaker libs voice s h c v l p =
    let (res, s1, e, started, joined) = run_init-Started s.init libs voice s h c v in
    let (res2, s2, e2, can2, loaded2, says2, inits2) = run_init-CanSay s.init libs voice s h l in
    let same : ◌≡◌ {A = ℤ × State} (res2, s2) (res, s1) = ok-injective (sym e2 ∙ e) in
    let kept : Kept libs s (res, s1) = subst (Kept libs s) same (can2, loaded2, says2, inits2) in
    let (can, loaded, says, inits) = kept in
    elim (Bool-cases (answers libs s.init)) [
      | inl answer ↦
          let works : is_none res ≡ false = started.result ∙ ap not answer in
          let speaks : s1.say ≡ s.init = says ∙ p answer in
          (
            res,
            s1,
            rw (e, works) refl,
            record {
              speaker = speaks ∙ sym (rw (inits, answer) refl);
              ready = subst (λ k. CanSay k s1) (sym speaks) (can works);
              joined = λ a q. joined a (sym speaks ∙ q);
              connectable = started.connectable;
              chosen_voice = started.voiced;
              loaded = loaded;
            },
            inits,
            started.heard,
          )
      | inr dumb ↦
          let fails : is_none res ≡ true = started.result ∙ ap not dumb in
          (
            res,
            record s1 { say = silent },
            rw (e, fails) refl,
            record {
              speaker = sym (rw (inits, dumb) refl);
              ready = tt;
              joined = λ a q. absurd (cc);
              connectable = started.connectable;
              chosen_voice = started.voiced;
              loaded = loaded;
            },
            inits,
            started.heard,
          )
    ]
