-- ===== src/ReadSb/Decode/Name.antt =====
-- The call sign that `decode_ac_pb` of src/mwp/decode_readsb.c reads.
use mwptools.Common.{
  ℕ, zero, suc, ◌+◌, ◌≤◌, ◌<◌, ◌≡◌, refl, Bool, List, [], ◌∷◌, ◌++◌, map, take, drop, length, arith,
  Bool-cases, inl, inr, leb, length-append, length-map, length-take,
}
use native.Mathlib.Numerals.{add-one}
use mwptools.Common.Result.{ok, fault, past_end}
use mwptools.ReadSb.Decode.{char_at, clean, read_name}

-- The first eight bytes of the text and its terminator, with all that is not printable made zero,
-- and a terminator.
abbrev pub callsign : Bool → List ℕ → List ℕ
callsign signed_char flight = map (clean signed_char) (take 8 (flight ++ 0 ∷ [])) ++ 0 ∷ []

char_at-drop :
    (s : List ℕ) (j : ℕ)
    → j ≤ length s
    → (c : ℕ) × (char_at s j ≡ ok c) × (drop j (s ++ 0 ∷ []) ≡ c ∷ drop (suc j) (s ++ 0 ∷ []))
char_at-drop [] zero h = (0, refl, refl)
char_at-drop [] (suc j) h = absurd (omega arith)
char_at-drop (c ∷ s) zero h = (c, refl, refl)
char_at-drop (c ∷ s) (suc j) h = char_at-drop s j (omega arith)

char_at-past_end : (s : List ℕ) (j : ℕ) → length s < j → char_at s j ≡ fault past_end
char_at-past_end [] zero h = absurd (omega arith)
char_at-past_end [] (suc j) h = refl
char_at-past_end (c ∷ s) zero h = absurd (omega arith)
char_at-past_end (c ∷ s) (suc j) h = char_at-past_end s j (omega arith)

read_name-from :
    (sc : Bool) (s : List ℕ) (rounds j : ℕ)
    → rounds + j ≤ length s + 1
    → read_name sc s rounds j ≡ ok (map (clean sc) (take rounds (drop j (s ++ 0 ∷ []))) ++ 0 ∷ [])
unfolding read_name
read_name-from sc s zero j h = refl
read_name-from sc s (suc r) j h =
    let (c, e, d) = char_at-drop s j (omega arith) in
    rw (e, d, read_name-from sc s r (j + 1) (omega arith), add-one)

pub read_name-ok : (sc : Bool) (s : List ℕ) → 7 ≤ length s → read_name sc s 8 0 ≡ ok (callsign sc s)
read_name-ok sc s h = read_name-from sc s 8 0 (omega arith)

read_name-fault :
    (sc : Bool) (s : List ℕ) (rounds j : ℕ)
    → length s + 1 < rounds + j
    → j ≤ length s + 1
    → read_name sc s rounds j ≡ fault past_end
unfolding read_name
read_name-fault sc s zero j h k = absurd (omega arith)
read_name-fault sc s (suc r) j h k = elim (Bool-cases (leb j (length s))) [
  | inl p ↦
      let (c, e, d) = char_at-drop s j (ground arith) in
      rw (e, read_name-fault sc s r (j + 1) (omega arith) (ground arith))
  | inr p ↦ rw (char_at-past_end s j (ground arith))
]

pub read_name-past_end :
    (sc : Bool) (s : List ℕ) → length s < 7 → read_name sc s 8 0 ≡ fault past_end
read_name-past_end sc s h = read_name-fault sc s 8 0 (omega arith) (omega arith)

pub length-callsign : (sc : Bool) (s : List ℕ) → 7 ≤ length s → length (callsign sc s) ≡ 9
length-callsign sc s h = simp (length-append, length-map, length-take, length-append) (omega arith)
