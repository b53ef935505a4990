-- ===== src/Serial/ErrorText.antt =====
-- When the texts of `get_error_text` of src/clib/rserial.c fit, on POSIX systems and on Windows.
use mwptools.Common.{
  ℕ, zero, suc, ◌+◌, ◌≡◌, refl, true, List, [], ◌∷◌, ◌++◌, length, drop, ltb, if◌then◌else◌, arith,
  Bool-cases, inl, inr,
}
use mwptools.Common.Int.{ℤ, pos, negsuc}
use mwptools.Common.CString.{codes}
use mwptools.Common.Result.{Result, ok, fault, past_end, ◌>>=◌}
use mwptools.Common.Strtol.{to_unsigned}
use mwptools.Common.Buffer.{
  strcpy, text, has_no_nul, strcpy-append, strcpy-full, text-append, has_no_nul-append,
}
use mwptools.Common.Hex.{has_no_nul-hex_before}
use mwptools.Serial.Transfer
use mwptools.Serial.Transfer.{generr, get_error_text-zero}
use mwptools.Serial.Windows
use mwptools.Serial.Windows.{hex, error_message}

-- A text in an array of `n` bytes, if it has room for the text and its end.
abbrev pub if_it_fits : ℕ → List ℕ → Result (List ℕ)
if_it_fits n s = if ltb n (length s + 1) then fault past_end else ok s

-- A text copied over an empty text.
copied-fits :
    (s buf : List ℕ)
    → has_no_nul s ≡ true
    → (strcpy 0 [] buf >>= λ b. strcpy 0 s b >>= text) ≡ if_it_fits (length buf) s
copied-fits s [] clean =
    let small : ltb 0 (length s + 1) ≡ true = ground arith in
    rw (strcpy-full 0 [] [] (omega arith), small) refl
copied-fits s (c ∷ buf) clean =
    let emptied : strcpy 0 [] (c ∷ buf) ≡ ok (0 ∷ buf) =
      strcpy-append 0 [] [] (c ∷ buf) refl (omega arith) in
    elim (Bool-cases (ltb (length (c ∷ buf)) (length s + 1))) [
      | inl small ↦ rw (emptied, strcpy-full 0 s (0 ∷ buf) (ground arith), small) refl
      | inr large ↦
          rw (emptied, strcpy-append 0 [] s (0 ∷ buf) refl (ground arith), large)
            (text-append s (drop (length s + 1) (0 ∷ buf)) clean)
    ]

has_no_nul-error_message :
    (message : ℤ → List ℕ) (lerr : ℤ)
    → has_no_nul (message lerr) ≡ true
    → has_no_nul (error_message message lerr) ≡ true
unfolding hex
has_no_nul-error_message message lerr clean =
    has_no_nul-append (message lerr) (codes " (0x" ++ (hex lerr ++ codes ")")) clean (
      has_no_nul-append (codes " (0x") (hex lerr ++ codes ")") refl (
        has_no_nul-append (hex lerr) (codes ")")
          (has_no_nul-hex_before 8 (to_unsigned 32 lerr) [] refl) refl))

-- The text for an error number on Windows.
abbrev pub windows_text : (ℤ → List ℕ) → ℤ → List ℕ
windows_text message (pos zero) = generr
windows_text message (pos (suc n)) = error_message message (pos (suc n))
windows_text message (negsuc n) = error_message message (negsuc n)

windows-fits :
    (message : ℤ → List ℕ) (lerr : ℤ) (buf : List ℕ)
    → has_no_nul (message lerr) ≡ true
    → Windows.get_error_text message lerr buf ≡ if_it_fits (length buf) (windows_text message lerr)
unfolding Windows.get_error_text
windows-fits message (pos zero) buf clean = copied-fits generr buf refl
windows-fits message (pos (suc n)) buf clean =
    copied-fits (error_message message (pos (suc n))) buf (has_no_nul-error_message message _ clean)
windows-fits message (negsuc n) buf clean =
    copied-fits (error_message message (negsuc n)) buf (has_no_nul-error_message message _ clean)

-- The length of the buffer is not looked at for the general text of error number 0, on any system,
-- nor for any text on Windows: there the text is the system's message with the number in hexadecimal
-- digits behind it. A text that does not fit, with its end, is written past the end of the buffer, and
-- one that does is returned.
pub get_error_text-fits :
    (strerror_r : ℤ → List ℕ → List ℕ) (message : ℤ → List ℕ) (lerr : ℤ) (buf : List ℕ)
    → has_no_nul (message lerr) ≡ true
    → (Transfer.get_error_text strerror_r (pos 0) buf ≡ if_it_fits (length buf) generr)
      × (Windows.get_error_text message lerr buf
          ≡ if_it_fits (length buf) (windows_text message lerr))
get_error_text-fits strerror_r message lerr buf clean =
    (get_error_text-zero strerror_r buf, windows-fits message lerr buf clean)
