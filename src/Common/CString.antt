-- ===== src/Common/CString.antt =====
-- C strings as lists of bytes, without the terminating NUL.
use Prim.Native.Char.{code}
use Prim.Native.String.{String}
use Prim.Native.Nat.{ℕ, ◌+◌}
use mathlib.Core.Path.{◌≡◌, refl}
use native.Mathlib.Omega.{arith}
use mwptools.Common.Int.{ℤ, pos, sub_ℕ}
use mathlib.Core.Bool.{Bool, true, false, ◌&&◌}
use mathlib.Core.List.{List, [], ◌∷◌}
use mathlib.Core.Option.{Option, none, some}
use mwptools.Common.Tests.{leb, ◌==◌, if◌then◌else◌}

abbrev pub codes : String → List ℕ
codes String.[] = []
codes (String.◌∷◌ c s) = code c ∷ codes s

-- `strncmp(s, p, strlen(p)) == 0`
abbrev pub starts_with : List ℕ → List ℕ → Bool
starts_with [] s = true
starts_with (c ∷ p) [] = false
starts_with (c ∷ p) (d ∷ s) = (c == d) && starts_with p s

-- `tolower` in the C locale
abbrev pub lower : ℕ → ℕ
lower c = if leb b'A' c && leb c b'Z' then c + 32 else c

-- `strncasecmp(s, p, strlen(p)) == 0`
abbrev pub starts_with_case : List ℕ → List ℕ → Bool
starts_with_case [] s = true
starts_with_case (c ∷ p) [] = false
starts_with_case (c ∷ p) (d ∷ s) = (lower c == lower d) && starts_with_case p s

-- `strstr(s, p)`: the rest of `s` from the first occurrence of `p` on.
abbrev pub strstr : List ℕ → List ℕ → Option (List ℕ)
strstr [] p = if starts_with p [] then some [] else none
strstr (c ∷ s) p = let rest = strstr s p in if starts_with p (c ∷ s) then some (c ∷ s) else rest

-- `strchr(s, c)`
abbrev pub strchr : List ℕ → ℕ → Option (List ℕ)
strchr [] c = none
strchr (d ∷ s) c = let rest = strchr s c in if d == c then some (d ∷ s) else rest

-- `strcmp(s, t) == 0`
abbrev pub str_equal : List ℕ → List ℕ → Bool
str_equal [] [] = true
str_equal [] (d ∷ t) = false
str_equal (c ∷ s) [] = false
str_equal (c ∷ s) (d ∷ t) = (c == d) && str_equal s t

-- `strncmp(s, p, strlen(p))` and `strncasecmp(s, p, strlen(p))`: C promises the sign of the result,
-- which here is the difference of the first two bytes that differ.
abbrev pub strncmp : List ℕ → List ℕ → ℤ
strncmp s [] = pos 0
strncmp [] (d ∷ p) = sub_ℕ 0 d
strncmp (c ∷ s) (d ∷ p) = let rest = strncmp s p in if c == d then rest else sub_ℕ c d

abbrev pub strncasecmp : List ℕ → List ℕ → ℤ
strncasecmp s [] = pos 0
strncasecmp [] (d ∷ p) = sub_ℕ 0 (lower d)
strncasecmp (c ∷ s) (d ∷ p) =
    let rest = strncasecmp s p in if lower c == lower d then rest else sub_ℕ (lower c) (lower d)

pub strncmp-starts_with : (s p : List ℕ) → starts_with p s ≡ true → strncmp s p ≡ pos 0
strncmp-starts_with s [] h = refl
strncmp-starts_with [] (d ∷ p) h = ground arith
strncmp-starts_with (c ∷ s) (d ∷ p) h = ground (arith, strncmp-starts_with s p)

pub strncasecmp-starts_with : (s p : List ℕ) → starts_with_case p s ≡ true → strncasecmp s p ≡ pos 0
strncasecmp-starts_with s [] h = refl
strncasecmp-starts_with [] (d ∷ p) h = ground arith
strncasecmp-starts_with (c ∷ s) (d ∷ p) h = ground (arith, strncasecmp-starts_with s p)

pub starts_with-case : (p s : List ℕ) → starts_with p s ≡ true → starts_with_case p s ≡ true
starts_with-case [] s h = refl
starts_with-case (c ∷ p) [] h = h
starts_with-case (c ∷ p) (d ∷ s) h = ground (arith, starts_with-case p s)
