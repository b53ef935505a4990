-- ===== src/Common/Hex.antt =====
-- Hexadecimal numbers as C prints them with `%x`.
use Prim.Native.Nat.{ℕ, zero, suc, ◌+◌, ◌-◌, ◌*◌, ◌/◌, ◌%◌, ◌^◌, ◌≤◌, ◌<◌}
use mathlib.Core.Path.{◌≡◌, refl}
use mathlib.Core.Bool.{true, false}
use mathlib.Core.List.{List, ◌∷◌, ◌++◌}
use mathlib.Core.Logic.{inl, inr}
use native.Mathlib.Omega.{arith, pow_step}
use mwptools.Common.Tests.{ltb, if◌then◌else◌, Bool-cases}
use mwptools.Common.Lists.{length, replicate, length-append, length-replicate}
use mwptools.Common.Buffer.{has_no_nul, has_no_nul-append}

-- `%x`, of at most as many digits as the first argument says.
abbrev pub hex_digit : ℕ → ℕ
hex_digit d = if ltb d 10 then 48 + d else 87 + d

abbrev pub hex_before : ℕ → ℕ → List ℕ → List ℕ
hex_before zero n s = s
hex_before (suc f) n s =
    let rest = hex_before f (n / 16) (hex_digit (n % 16) ∷ s) in
    if ltb n 16 then hex_digit n ∷ s else rest

-- `%0wx`: zeros in front, up to `w` digits.
abbrev pub hex_padded : ℕ → List ℕ → List ℕ
hex_padded w s = replicate (w - length s) b'0' ++ s

pub has_no_nul-hex_before :
    (f n : ℕ) (s : List ℕ) → has_no_nul s ≡ true → has_no_nul (hex_before f n s) ≡ true
has_no_nul-hex_before zero n s h = h
has_no_nul-hex_before (suc f) n s h =
    let digit : (d : ℕ) → has_no_nul (hex_digit d ∷ s) ≡ true = λ d. ground arith in
    elim (Bool-cases (ltb n 16)) [
      | inl small ↦ rw small (digit n)
      | inr large ↦
          rw large (has_no_nul-hex_before f (n / 16) (hex_digit (n % 16) ∷ s) (digit (n % 16)))
    ]

-- A number of more than one digit, without its last.
many_digits : (k n : ℕ) → n < 16 ^ suc k → ltb n 16 ≡ false → (0 < k) × (n / 16 < 16 ^ k)
many_digits zero n h large = absurd (ground arith)
many_digits (suc k) n h large =
    (omega arith, let e : 16 ^ suc (suc k) ≡ 16 * 16 ^ suc k = pow_step 16 (suc k) in omega arith)

-- A number below 16^(k+1) has at most k+1 digits.
pub length-hex_before :
    (f k n : ℕ) (s : List ℕ) → n < 16 ^ suc k → length (hex_before f n s) ≤ suc k + length s
length-hex_before zero k n s h = omega arith
length-hex_before (suc f) zero n s h =
    let small : ltb n 16 ≡ true = ground arith in rw small (omega arith)
length-hex_before (suc f) (suc k) n s h = elim (Bool-cases (ltb n 16)) [
  | inl small ↦ rw small (omega arith)
  | inr large ↦
      let (many, less) = many_digits (suc k) n h large in
      rw large (omega (arith, length-hex_before f k (n / 16) (hex_digit (n % 16) ∷ s) less))
]

has_no_nul-zeros : (n : ℕ) → has_no_nul (replicate n b'0') ≡ true
has_no_nul-zeros zero = refl
has_no_nul-zeros (suc n) = has_no_nul-zeros n

pub has_no_nul-hex_padded :
    (w : ℕ) (s : List ℕ) → has_no_nul s ≡ true → has_no_nul (hex_padded w s) ≡ true
has_no_nul-hex_padded w s h =
    has_no_nul-append (replicate (w - length s) b'0') s (has_no_nul-zeros (w - length s)) h

pub length-hex_padded : (w : ℕ) (s : List ℕ) → length s ≤ w → length (hex_padded w s) ≡ w
length-hex_padded w s h = omega (
  arith,
  length-append (replicate (w - length s) b'0') s,
  length-replicate {A = ℕ} (w - length s) b'0',
)
