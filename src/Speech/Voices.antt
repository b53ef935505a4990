-- ===== src/Speech/Voices.antt =====
-- Which voice `sd_init` of src/mwp/speech_wrapper.c asks speechd for.
use mwptools.Common.{
  ℕ, ◌≡◌, ◌≢◌, refl, true, List, [], ◌∷◌, String, if◌then◌else◌, arith, Bool-cases, inl, inr,
}
use mwptools.Common.CString.{codes, str_equal}
use mwptools.Speech.State.{
  VoiceType, male1, male2, male3, female1, female2, female3, child_male, child_female,
}
use mwptools.Speech.Speechd.{voice_type}

-- The name that the code compares with for each type but the default one.
abbrev pub name_of : VoiceType → String
name_of male1 = "male1"
name_of male2 = "male2"
name_of male3 = "male3"
name_of female1 = "female1"
name_of female2 = "female2"
name_of female3 = "female3"
name_of child_male = "child_male"
name_of child_female = "child_female"

str_equal-eq : (s t : List ℕ) → str_equal s t ≡ true → s ≡ t
str_equal-eq [] [] h = refl
str_equal-eq [] (d ∷ t) h = ground arith
str_equal-eq (c ∷ s) [] h = ground arith
str_equal-eq (c ∷ s) (d ∷ t) h = ground (arith, str_equal-eq s t)

-- Every voice but `male2` gets the second male voice, and `male2` gets the third: `strcmp` is
-- non-zero where the texts differ.
voice_type-male2 :
    (voice : List ℕ) → voice_type voice ≡ (if str_equal voice (codes "male2") then male3 else male2)
unfolding voice_type
voice_type-male2 voice = elim (Bool-cases (str_equal voice (codes "male2"))) [
  | inl p ↦ rw (str_equal-eq voice _ p)
  | inr p ↦ rw p
]

-- No name of a voice type gets the type of that name.
voice_type-ne : (t : VoiceType) → voice_type (codes (name_of t)) ≢ t
unfolding voice_type
voice_type-ne male1 = ground arith
voice_type-ne male2 = ground arith
voice_type-ne _ = ground arith

-- Every voice but `male2` gets the second male voice, and `male2` gets the third: `strcmp` is
-- non-zero where the texts differ. So no name of a voice type gets the type of that name.
voice_type-inverted :
    (voice : List ℕ) (t : VoiceType)
    → (voice_type voice ≡ (if str_equal voice (codes "male2") then male3 else male2))
      × (voice_type (codes (name_of t)) ≢ t)
voice_type-inverted voice t = (voice_type-male2 voice, voice_type-ne t)
