-- ===== src/Speech/Speechd.antt =====
-- `sd_init`, `sd_say` and `sd_close` of src/mwp/speech_wrapper.c.
use mwptools.Common.{
  ℕ, Bool, true, false, not, ◌&&◌, Option, none, some, String, List, if◌then◌else◌,
}
use mwptools.Common.CString.{codes, str_equal}
use mwptools.Common.Result.{Result, ok, fault, null_pointer}
use mwptools.Speech.State.{
  Engine, silent, espeak, speechd, flite, VoiceType, male1, male2, male3, female1, female2, female3,
  child_male, child_female, connect, set_language, set_volume, notify, set_voice_type, cancel_all,
  hang_up, speak, State, log,
}

-- libspeechd: its symbols, and whether `spd_open2` returns a connection.
pub record SpeechdLib : Type 0 where
  pub path : Bool
  pub opens : Bool
  pub open2 : Bool
  pub connects : Bool
  pub set_language : Bool
  pub set_voice_type : Bool
  pub set_volume : Bool
  pub set_notification_on : Bool
  pub say : Bool
  pub cancel_all : Bool
  pub close : Bool

-- `strcmp(s, t)` as a condition: true where the texts differ.
abbrev pub strcmp : List ℕ → String → Bool
strcmp s t = not (str_equal s (codes t))

unfoldable pub voice_type : List ℕ → VoiceType
voice_type voice =
    if strcmp voice "male2"
    then male2
    else if strcmp voice "male3"
    then male3
    else if strcmp voice "female1"
    then female1
    else if strcmp voice "female2"
    then female2
    else if strcmp voice "female3"
    then female3
    else if strcmp voice "child_male"
    then child_male
    else if strcmp voice "child_female"
    then child_female
    else male1

abbrev pub when : Bool → (State → State) → State → State
when true f s = f s
when false f s = s

-- The body of `if (spd)`, and whether it reaches `ret = API_SPEECHD`.
unfoldable pub set_up : SpeechdLib → List ℕ → State → ℕ × State
unfolding voice_type
set_up lib voice s =
    let s1 = when lib.set_language (log set_language) s in
    let s2 = when lib.set_voice_type (log (set_voice_type (voice_type voice))) s1 in
    let s3 = when lib.set_volume (log set_volume) s2 in
    let s4 = when lib.set_notification_on (λ s. log notify (log notify s)) s3 in
    (if lib.say then 2 else 0, record s4 { ssay = lib.say })

unfoldable pub sd_init : SpeechdLib → List ℕ → State → ℕ × State
unfolding set_up
sd_init lib voice s =
    if lib.path && lib.opens
    then (let opened = record s { handle = some speechd } in
        let s' = if lib.open2 then log connect (record opened { spd = lib.connects }) else opened in
        if s'.spd then set_up lib voice s' else (0, s'))
    else (0, if lib.path then record s { handle = none } else s)

-- With no connection nothing is said. The wait for the end of the speech is left out.
unfoldable pub sd_say : List ℕ → State → Result State
sd_say text s =
    if s.spd then (if s.ssay then ok (log (speak speechd text) s) else fault null_pointer) else ok s

-- The symbols of libspeechd are found only if it is the library that was opened last.
abbrev pub is_speechd : Option Engine → Bool
is_speechd none = false
is_speechd (some silent) = false
is_speechd (some espeak) = false
is_speechd (some speechd) = true
is_speechd (some flite) = false

unfoldable pub sd_close : SpeechdLib → State → State
sd_close lib s =
    if s.spd
    then (let s' = when (is_speechd s.handle && lib.cancel_all) (log cancel_all) s in
        when (is_speechd s.handle && lib.close) (λ s. record (log hang_up s) { spd = false }) s')
    else s
