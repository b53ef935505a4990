-- ===== src/Common/Buffer.antt =====
-- A `char` array of a fixed size as the list of its bytes, and the texts in it.
use Prim.Native.Nat.{ℕ, zero, suc, ◌+◌, ◌-◌, ◌<◌, ◌≤◌}
use mathlib.Core.Path.{◌≡◌, refl, sym, ap, ◌∙◌}
use mathlib.Core.Bool.{Bool, true, false, ◌||◌, not}
use mathlib.Core.List.{List, [], ◌∷◌, ◌++◌}
use mathlib.Core.List.{append_assoc}
use native.Mathlib.Omega.{arith}
use mwptools.Common.Tests.{leb, ◌==◌, if◌then◌else◌}
use mwptools.Common.Lists.{length, take, drop, all, length-append}
use mwptools.Common.Result.{Result, ok, fault, past_end, ◌>>=◌}

-- Bytes are written at the front of an array, as far as it goes.
abbrev pub overwrite : List ℕ → List ℕ → List ℕ
overwrite [] cs = []
overwrite (b ∷ bs) [] = b ∷ bs
overwrite (b ∷ bs) (c ∷ cs) = c ∷ overwrite bs cs

abbrev pub write_at : ℕ → List ℕ → List ℕ → List ℕ
write_at zero bs cs = overwrite bs cs
write_at (suc i) [] cs = []
write_at (suc i) (b ∷ bs) cs = b ∷ write_at i bs cs

-- Bytes are stored from an index on; there has to be room for them.
unfoldable pub store : ℕ → List ℕ → List ℕ → Result (List ℕ)
store i cs buf = if leb (i + length cs) (length buf) then ok (write_at i buf cs) else fault past_end

-- `strcpy(buf + i, s)`
pub strcpy : ℕ → List ℕ → List ℕ → Result (List ℕ)
strcpy i s buf =
    if leb (i + length s + 1) (length buf)
    then ok (write_at i buf (s ++ 0 ∷ []))
    else fault past_end

abbrev pub push : ℕ → Result (List ℕ) → Result (List ℕ)
push c (ok s) = ok (c ∷ s)
push c (fault e) = fault e

-- The rest of the `n` bytes of `strncpy` behind a NUL.
abbrev pub pad : ℕ → List ℕ → Result (List ℕ)
pad zero buf = ok buf
pad (suc n) [] = fault past_end
pad (suc n) (b ∷ buf) = push 0 (pad n buf)

-- `strncpy(buf, s, n)`, of the bytes `s`: it writes `n` bytes, zeros behind a NUL, and reads as far as
-- the NUL or `n` bytes.
unfoldable pub strncpy : ℕ → List ℕ → List ℕ → Result (List ℕ)
strncpy zero s buf = ok buf
strncpy (suc n) s [] = fault past_end
strncpy (suc n) [] (b ∷ buf) = fault past_end
strncpy (suc n) (c ∷ s) (b ∷ buf) =
    let rest = strncpy n s buf in push c (if c == 0 then pad n buf else rest)

-- The text that starts an array; without a NUL it is read past the end.
abbrev pub text : List ℕ → Result (List ℕ)
text [] = fault past_end
text (c ∷ s) = let rest = text s in if c == 0 then ok [] else push c rest

-- The text up to a newline, or all of it.
abbrev pub line : List ℕ → Result (List ℕ)
line [] = fault past_end
line (c ∷ s) = let rest = line s in if c == b'\n' || c == 0 then ok [] else push c rest

abbrev pub has_no_nul : List ℕ → Bool
has_no_nul = all (λ c. not (c == 0))

abbrev pub is_line : List ℕ → Bool
is_line = all (λ c. not (c == b'\n' || c == 0))

pub overwrite-append :
    (s : List ℕ) (buf : List ℕ) → length s ≤ length buf → overwrite buf s ≡ s ++ drop (length s) buf
overwrite-append [] [] h = refl
overwrite-append [] (b ∷ bs) h = refl
overwrite-append (c ∷ s) [] h = absurd (omega arith)
overwrite-append (c ∷ s) (b ∷ bs) h = ap (λ r. c ∷ r) (overwrite-append s bs (omega arith))

pub write_at-append : (p r cs : List ℕ) → write_at (length p) (p ++ r) cs ≡ p ++ overwrite r cs
write_at-append [] r cs = refl
write_at-append (b ∷ p) r cs = ap (λ x. b ∷ x) (write_at-append p r cs)

pub store-front :
    (s buf : List ℕ) → length s ≤ length buf → store 0 s buf ≡ ok (s ++ drop (length s) buf)
unfolding store
store-front s buf h =
    let fits : leb (0 + length s) (length buf) ≡ true = ground arith in
    rw (fits, overwrite-append s buf h)

pub length-drop : (n : ℕ) (xs : List ℕ) → length (drop n xs) ≡ length xs - n
length-drop zero xs = omega arith
length-drop (suc n) [] = omega arith
length-drop (suc n) (x ∷ xs) = omega (arith, length-drop n xs)

overwrite-one : (r : List ℕ) → length r ≡ 1 → overwrite r (0 ∷ []) ≡ 0 ∷ []
overwrite-one [] h = absurd (omega arith)
overwrite-one (b ∷ []) h = refl
overwrite-one (b ∷ c ∷ r) h = absurd (omega arith)

-- Bytes and a NUL behind them, in an array with just the room.
pub store-terminated :
    (s buf : List ℕ)
    → length buf ≡ length s + 1
    → (store 0 s buf >>= store (length s) (0 ∷ [])) ≡ ok (s ++ 0 ∷ [])
unfolding store
store-terminated s buf size =
    let rest : List ℕ = drop (length s) buf in
    let one : length rest ≡ 1 = omega (arith, size, length-drop (length s) buf) in
    let room : leb (length s + 1) (length (s ++ rest)) ≡ true =
      ground (arith, length-append s rest, one) in
    rw (
      store-front s buf (omega arith),
      room,
      write_at-append s rest (0 ∷ []),
      overwrite-one rest one,
    )

-- A text that fits is copied behind a prefix of the array.
pub strcpy-ok :
    (p s r : List ℕ)
    → length s < length r
    → strcpy (length p) s (p ++ r) ≡ ok (p ++ (s ++ 0 ∷ drop (length s + 1) r))
unfolding strcpy
strcpy-ok p s r h =
    let fits : leb (length p + length s + 1) (length (p ++ r)) ≡ true =
      ground (arith, length-append p r) in
    let room : length (s ++ 0 ∷ []) ≤ length r = omega (arith, length-append s (0 ∷ [])) in
    rw (
      fits,
      write_at-append p r (s ++ 0 ∷ []),
      overwrite-append (s ++ 0 ∷ []) r room,
      length-append s (0 ∷ []),
      append_assoc s (0 ∷ []) (drop (length s + 1) r),
    )

pub text-append : (s r : List ℕ) → has_no_nul s ≡ true → text (s ++ 0 ∷ r) ≡ ok s
text-append [] r h = refl
text-append (c ∷ s) r h = ground (arith, text-append s r)

pub line-append : (s r : List ℕ) → is_line s ≡ true → line (s ++ b'\n' ∷ r) ≡ ok s
line-append [] r h = refl
line-append (c ∷ s) r h = ground (arith, line-append s r)

pub length-overwrite : (bs cs : List ℕ) → length (overwrite bs cs) ≡ length bs
length-overwrite [] cs = refl
length-overwrite (b ∷ bs) [] = refl
length-overwrite (b ∷ bs) (c ∷ cs) = ap suc (length-overwrite bs cs)

pub take-all : (n : ℕ) (xs : List ℕ) → length xs ≤ n → take n xs ≡ xs
take-all zero [] h = refl
take-all zero (x ∷ xs) h = absurd (omega arith)
take-all (suc n) [] h = refl
take-all (suc n) (x ∷ xs) h = ap (λ r. x ∷ r) (take-all n xs (omega arith))

-- The text that was copied, together with the prefix.
pub strcpy-append :
    (i : ℕ) (p s r : List ℕ)
    → i ≡ length p
    → length s < length r
    → strcpy i s (p ++ r) ≡ ok ((p ++ s) ++ 0 ∷ drop (length s + 1) r)
strcpy-append i p s r e h =
    rw e (strcpy-ok p s r h ∙ ap ok (sym (append_assoc p s (0 ∷ drop (length s + 1) r))))

pub has_no_nul-append :
    (s t : List ℕ) → has_no_nul s ≡ true → has_no_nul t ≡ true → has_no_nul (s ++ t) ≡ true
has_no_nul-append [] t h k = k
has_no_nul-append (c ∷ s) t h k = ground (arith, has_no_nul-append s t)

pub strcpy-full :
    (i : ℕ) (s buf : List ℕ) → length buf < i + length s + 1 → strcpy i s buf ≡ fault past_end
unfolding strcpy
strcpy-full i s buf h =
    let full : leb (i + length s + 1) (length buf) ≡ false = ground arith in rw full refl
