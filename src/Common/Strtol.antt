-- ===== src/Common/Strtol.antt =====
-- `strtol` of the C library in the C locale, with a 64-bit `long`.
use Prim.Native.Nat.{ℕ, ◌<◌, ◌+◌, ◌-◌, ◌*◌, ◌%◌, ◌^◌}
use mathlib.Core.Bool.{Bool, true, false, ◌&&◌, ◌||◌}
use mathlib.Core.List.{List, [], ◌∷◌}
use mathlib.Core.Option.{Option, none, some}
use mwptools.Common.Int.{ℤ, pos, negsuc}
use mwptools.Common.Tests.{ltb, leb, ◌==◌, if◌then◌else◌, lt→ltb}
use native.Mathlib.Omega.{arith}
use mathlib.Core.Path.{◌≡◌, refl}

abbrev pub is_space : ℕ → Bool
is_space c = c == b' ' || (leb 9 c && leb c 13)

abbrev pub digit_value : ℕ → Option ℕ
digit_value c =
    if leb b'0' c && leb c b'9'
    then some (c - 48)
    else if leb b'a' c && leb c b'z'
    then some (c - 87)
    else if leb b'A' c && leb c b'Z'
    then some (c - 55)
    else none

abbrev pub below : ℕ → Option ℕ → Option ℕ
below base none = none
below base (some d) = if ltb d base then some d else none

abbrev pub digit : ℕ → ℕ → Option ℕ
digit base c = below base (digit_value c)

-- Reads digits as far as they go, behind those that gave `acc`.
abbrev pub digits : ℕ → ℕ → List ℕ → ℕ × List ℕ
digits base acc [] = (acc, [])
digits base acc (c ∷ s) = elim (digit base c) [
  | none ↦ (acc, c ∷ s)
  | some d ↦ digits base (acc * base + d) s
]

abbrev pub skip_spaces : List ℕ → List ℕ
skip_spaces [] = []
skip_spaces (c ∷ s) = let rest = skip_spaces s in if is_space c then rest else c ∷ s

abbrev pub sign : List ℕ → Bool × List ℕ
sign [] = (false, [])
sign (c ∷ s) = if c == b'-' then (true, s) else if c == b'+' then (false, s) else (false, c ∷ s)

abbrev pub starts_with_digit : ℕ → List ℕ → Bool
starts_with_digit base [] = false
starts_with_digit base (c ∷ s) = elim (digit base c) [ none ↦ false | some d ↦ true ]

-- The prefix `0x` or `0X` of a hexadecimal number, if a digit follows it.
abbrev pub skip_prefix : ℕ → List ℕ → List ℕ
skip_prefix base [] = []
skip_prefix base (c ∷ []) = c ∷ []
skip_prefix base (c ∷ d ∷ s) =
    if (base == 16 && c == b'0') && ((d == b'x' || d == b'X') && starts_with_digit 16 s)
    then s
    else c ∷ d ∷ s

abbrev pub clamp : Bool → ℕ → ℤ
clamp false n = if ltb n (2 ^ 63) then pos n else pos (2 ^ 63 - 1)
clamp true n =
    if n == 0 then pos 0 else if leb n (2 ^ 63) then negsuc (n - 1) else negsuc (2 ^ 63 - 1)

-- The value, and what `endptr` points to: with no number, the whole text.
abbrev pub strtol : ℕ → List ℕ → ℤ × List ℕ
strtol base s =
    let (negative, t) = sign (skip_spaces s) in
    let u = skip_prefix base t in
    if starts_with_digit base u
    then (let (n, rest) = digits base 0 u in (clamp negative n, rest))
    else (pos 0, s)

-- A number as an unsigned word of a width, and a word as a signed 32-bit number.
abbrev pub to_unsigned : ℕ → ℤ → ℕ
to_unsigned w (pos n) = n % 2 ^ w
to_unsigned w (negsuc n) = 2 ^ w - 1 - n % 2 ^ w

abbrev pub to_signed32 : ℕ → ℤ
to_signed32 n = if ltb n (2 ^ 31) then pos n else negsuc (2 ^ 32 - 1 - n)

-- The conversion of a `long` to an `int`.
abbrev pub to_int : ℤ → ℤ
to_int n = to_signed32 (to_unsigned 32 n)

pub to_int-small : (n : ℕ) → n < 2 ^ 31 → to_int (pos n) ≡ pos n
to_int-small n h = let same : n % 2 ^ 32 ≡ n = omega arith in rw (same, lt→ltb n (2 ^ 31) h) refl
