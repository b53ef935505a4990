-- ===== src/Speech/Lines.antt =====
-- The loop of src/samples/flite/ftest.c over its input, against the lines of the input.
use mwptools.Common.{
  ℕ, ◌<◌, ◌≡◌, refl, ap, subst, Bool-cases, inl, inr, if◌then◌else◌, ◌-◌, Bool, true, false, ◌&&◌,
  Option, none, some, List, [], ◌∷◌, ◌++◌, ◌==◌, length, arith,
}
use mwptools.Common.Result.{Result, ok, fault, ◌>>=◌}
use mwptools.Common.Buffer.{push, is_line, has_no_nul, text-append}
use mwptools.Speech.State.{Call, initialize, flite, speak}
use mwptools.Speech.Sample.{
  Talk, SampleLib, allows, fl_init, features, load_named, built_in, find_voice, prepare, pieces,
  shorten, speak_piece, speak_all, main,
}

abbrev ended : List ℕ → List ℕ
ended t = t ++ b'\n' ∷ []

-- The input that has these lines.
abbrev pub input : List (List ℕ) → List ℕ
input [] = []
input (t ∷ ts) = t ++ b'\n' ∷ input ts

abbrev pub IsShort : List (List ℕ) → Type 0
IsShort [] = Unit
IsShort (t ∷ ts) = (is_line t ≡ true) × (length t < 1023) × IsShort ts

-- The calls behind the lines, on top of earlier ones.
abbrev pub spoken : List (List ℕ) → List Call → List Call
spoken [] cs = cs
spoken (t ∷ ts) cs = spoken ts (speak flite t ∷ cs)

pieces-line :
    (room : ℕ) (t s : List ℕ)
    → is_line t ≡ true
    → length t < room
    → pieces room (t ++ b'\n' ∷ s) ≡ ended t ∷ pieces 1023 s
pieces-line room [] s clean fits = refl
pieces-line room (c ∷ t) s clean fits =
    let other : (c == b'\n') ≡ false = ground arith in
    let more : (room == 1) ≡ false = ground arith in
    let clean1 : is_line t ≡ true = ground arith in
    rw (other, more, pieces-line (room - 1) t s clean1 (omega arith)) refl

has_no_nul-ended : (t : List ℕ) → is_line t ≡ true → has_no_nul (ended t) ≡ true
has_no_nul-ended [] clean = refl
has_no_nul-ended (c ∷ t) clean = ground (arith, has_no_nul-ended t)

shorten-ended : (t : List ℕ) → shorten (ended t) ≡ ok t
shorten-ended [] = refl
shorten-ended (c ∷ []) = refl
shorten-ended (c ∷ d ∷ t) = ap (push c) (shorten-ended (d ∷ t))

speak_piece-ended :
    (t : List ℕ) (s : Talk)
    → is_line t ≡ true
    → s.fl_tts ≡ true
    → s.voice ≡ true
    → speak_piece (ended t) s ≡ ok (record s { calls = speak flite t ∷ s.calls })
speak_piece-ended t s clean tts voice =
    rw (text-append (ended t) [] (has_no_nul-ended t clean), shorten-ended t, tts, voice) refl

-- A program that is ready speaks the lines of its input in their order, each without its newline.
pub speak_all-input :
    (ts : List (List ℕ)) (s : Talk)
    → IsShort ts
    → s.fl_tts ≡ true
    → s.voice ≡ true
    → speak_all (pieces 1023 (input ts)) s ≡ ok (record s { calls = spoken ts s.calls })
speak_all-input [] s short tts voice = refl
speak_all-input (t ∷ ts) s (clean, fits, short) tts voice =
    rw (pieces-line 1023 t (input ts) clean fits, speak_piece-ended t s clean tts voice)
      (speak_all-input ts (record s { calls = speak flite t ∷ s.calls }) short tts voice)

abbrev HasTts : Bool → Result Talk → Type 0
HasTts b (fault e) = Unit
HasTts b (ok s) = s.fl_tts ≡ b

features-HasTts :
    (lib : SampleLib) (factor : Option (List ℕ)) (s : Talk)
    → HasTts s.fl_tts (features lib factor s)
features-HasTts lib none s = elim (Bool-cases s.voice) [ inl v ↦ rw v refl | inr v ↦ rw v tt ]
features-HasTts lib (some p) s = elim (Bool-cases s.voice) [
  | inl v ↦ rw v (elim (Bool-cases (lib.nonzero p)) [ inl n ↦ rw n refl | inr n ↦ rw n refl ])
  | inr v ↦ rw v tt
]

load_named-fl_tts :
    (lib : SampleLib) (name : Option (List ℕ)) (s : Talk)
    → (built_in lib (load_named lib name s).1).fl_tts ≡ s.fl_tts
load_named-fl_tts lib none s = ground arith
load_named-fl_tts lib (some name) s = ground arith

found-HasTts :
    (b : Bool) (found : Result Bool) (r : Result Talk) (s : Talk)
    → HasTts b r
    → s.fl_tts ≡ b
    → HasTts b (found >>= λ f. if f then r else ok s)
found-HasTts b (fault e) r s h k = tt
found-HasTts b (ok true) r s h k = h
found-HasTts b (ok false) r s h k = k

prepare-HasTts :
    (lib : SampleLib) (name : Option (List ℕ)) (s : Talk) → HasTts s.fl_tts (prepare lib name s)
prepare-HasTts lib name s =
    let (factor, named) = load_named lib name s in
    let s1 : Talk = built_in lib named in
    let tuned : HasTts s.fl_tts (features lib factor s1) =
      subst (λ b. HasTts b (features lib factor s1)) (load_named-fl_tts lib name s)
        (features-HasTts lib factor s1) in
    found-HasTts s.fl_tts (find_voice lib) (features lib factor s1) s tuned refl

abbrev IsReady : Result Talk → Type 0
IsReady (fault e) = Unit
IsReady (ok s) = s.voice ≡ true → s.fl_tts ≡ true

HasTts-IsReady : (r : Result Talk) → HasTts true r → IsReady r
HasTts-IsReady (fault e) h = tt
HasTts-IsReady (ok s) h = λ v. h

-- `fl_init` leaves a voice only with the function that speaks.
fl_init-IsReady : (lib : SampleLib) (name : Option (List ℕ)) → IsReady (fl_init lib name)
unfolding fl_init
fl_init-IsReady lib name =
    let s : Talk = record { voice = false; fl_tts = lib.tts; calls = initialize ∷ [] } in
    elim (Bool-cases (lib.path && (lib.opens && lib.init))) [
      | inr n ↦ rw n (λ v. ground arith)
      | inl y ↦ elim (Bool-cases (allows lib)) [
        | inr n ↦ rw (y, n) (λ v. ground arith)
        | inl a ↦
            let has : lib.tts ≡ true = ground arith in
            rw (y, a)
              (HasTts-IsReady (prepare lib name s)
                (subst (λ b. HasTts b (prepare lib name s)) has (prepare-HasTts lib name s)))
      ]
    ]

-- When `fl_init` leaves a voice, the program runs without a fault on any input whose lines end with a
-- newline, have fewer than 1023 bytes and hold no byte 0: behind the calls of `fl_init` it speaks the
-- lines, in their order, each without its newline.
pub main-spoken :
    (lib : SampleLib) (name : Option (List ℕ)) (ts : List (List ℕ)) (s : Talk)
    → fl_init lib name ≡ ok s
    → s.voice ≡ true
    → IsShort ts
    → main lib name (input ts) ≡ ok (record s { calls = spoken ts s.calls })
unfolding main
main-spoken lib name ts s made voice short =
    let ready : IsReady (ok s) = subst IsReady made (fl_init-IsReady lib name) in
    simp (made, voice, speak_all-input ts s short (ready voice) voice)
