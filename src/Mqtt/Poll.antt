-- ===== src/Mqtt/Poll.antt =====
-- What `paho_wrapper_poll_message` of src/clib/paho_wrapper.c makes of a message.
use mwptools.Common.{
  ℕ, zero, suc, ◌+◌, ◌≡◌, refl, ap, ◌∙◌, false, ◌==◌, Option, none, some, List, [], ◌∷◌, length,
  replicate, if◌then◌else◌, Bool-cases, Option-cases, inl, inr,
}
use native.Mathlib.Numerals.{add-one}
use mwptools.Common.Result.{Result, ok, fault, ◌>>=◌}
use mwptools.Common.Buffer.{push, pad, strncpy, text}
use mwptools.Mqtt.Client.{is_success, Received, paho_wrapper_poll_message}

-- What is in front of the first NUL.
abbrev pub until_nul : List ℕ → List ℕ
until_nul [] = []
until_nul (c ∷ s) = let rest = until_nul s in if c == 0 then [] else c ∷ rest

pad-zeros : (n : ℕ) → pad n (replicate (suc n) 0) ≡ ok (replicate (suc n) 0)
pad-zeros zero = refl
pad-zeros (suc n) = rw (pad-zeros n)

text-push :
    (c : ℕ) (r : Result (List ℕ)) → (c == 0) ≡ false → (push c r >>= text) ≡ push c (r >>= text)
text-push c (ok s) h = rw h refl
text-push c (fault e) h = refl

-- A payload is copied into zeros, of which there is one more.
strncpy-zeros :
    (s : List ℕ) → (strncpy (length s) s (replicate (suc (length s)) 0) >>= text) ≡ ok (until_nul s)
unfolding strncpy
strncpy-zeros [] = refl
strncpy-zeros (c ∷ s) = elim (Bool-cases (c == 0)) [
  | inl nul ↦ rw (nul, pad-zeros (length s), nul) refl
  | inr other ↦
      let rest : Result (List ℕ) = strncpy (length s) s (replicate (suc (length s)) 0) in
      rw other (text-push c rest other ∙ ap (push c) (strncpy-zeros s))
]

copied :
    (payload : List ℕ)
    → (strncpy (length payload) payload (replicate (length payload + 1) 0) >>= text)
      ≡ ok (until_nul payload)
copied payload = rw (add-one (length payload)) (strncpy-zeros payload)

-- The text of a message: what is in front of its first NUL.
abbrev pub text_of : Option (List ℕ) → Option (List ℕ)
text_of none = none
text_of (some payload) = some (until_nul payload)

abbrev pub count : Option (List ℕ) → ℕ
count none = 0
count (some payload) = 1

-- A poll writes no byte past the text that it allocates, reads none past the payload, and returns the library's code. With a
-- success, the text is the payload in front of its first NUL, or NULL where there is no message, and
-- the message is freed. With any other code there is no text, and a message that comes with the code
-- is not freed.
pub paho_wrapper_poll_message-text :
    (r : Received)
    → paho_wrapper_poll_message r
      ≡ ok (record {
        rc = r.rc;
        str = if is_success r.rc then text_of r.message else none;
        unfreed = if is_success r.rc then 0 else count r.message;
      })
unfolding paho_wrapper_poll_message
paho_wrapper_poll_message-text r = elim (Bool-cases (is_success r.rc)) [
  | inl success ↦ elim (Option-cases r.message) [
    | inl e ↦ rw (e, success) refl
    | inr (payload, e) ↦ rw (e, copied payload, success) refl
  ]
  | inr failure ↦ elim (Option-cases r.message) [
    | inl e ↦ rw (e, failure) refl
    | inr (payload, e) ↦ rw (e, failure) refl
  ]
]
