-- ===== src/Common/Decimal.antt =====
-- Decimal numbers as C prints them with `%d` and reads them with `strtol`.
use Prim.Native.Nat.{ℕ, zero, suc, ◌+◌, ◌*◌, ◌/◌, ◌%◌, ◌^◌, ◌<◌}
use mathlib.Core.Path.{◌≡◌, refl, sym, ap, ◌∙◌}
use mathlib.Core.Bool.{Bool, true, false}
use mathlib.Core.List.{List, [], ◌∷◌}
use mathlib.Core.Option.{Option, none, some}
use native.Mathlib.Omega.{arith, pow_step}
use mwptools.Common.Int.{pos}
use mwptools.Common.Tests.{ltb, ◌==◌, if◌then◌else◌, Bool-cases, lt→ltb, ltb→lt}
use mwptools.Common.Lists.{all}
use mwptools.Common.Strtol.{digit, digits, is_space, starts_with_digit, strtol, clamp}
use mathlib.Core.Logic.{inl, inr}

-- The digits of a number in front of a text, the least significant one first to be put there. The
-- first argument bounds how many digits there are.
abbrev pub decimal_before : ℕ → ℕ → List ℕ → List ℕ
decimal_before zero n s = s
decimal_before (suc f) n s =
    let rest = decimal_before f (n / 10) ((48 + n % 10) ∷ s) in
    if ltb n 10 then (48 + n) ∷ s else rest

unfoldable pub decimal : ℕ → List ℕ
decimal n = decimal_before 20 n []

digit-decimal : (d : ℕ) → d < 10 → digit 10 (48 + d) ≡ some d
digit-decimal d h = ground arith

digits-step :
    (acc c d : ℕ) (s : List ℕ)
    → digit 10 c ≡ some d
    → digits 10 acc (c ∷ s) ≡ digits 10 (acc * 10 + d) s
digits-step acc c d s h =
    ap (λ (o : Option ℕ). elim o [ none ↦ (acc, c ∷ s) | some e ↦ digits 10 (acc * 10 + e) s ]) h

many_digits : (f n : ℕ) → n < 10 ^ suc f → ltb n 10 ≡ false → (0 < f) × (n / 10 < 10 ^ f)
many_digits zero n h large = absurd (ground arith)
many_digits (suc f) n h large =
    (omega arith, let e : 10 ^ suc (suc f) ≡ 10 * 10 ^ suc f = pow_step 10 (suc f) in omega arith)

digits-decimal_before :
    (f n : ℕ) (s : List ℕ) → n < 10 ^ f → 0 < f → digits 10 0 (decimal_before f n s) ≡ digits 10 n s
digits-decimal_before zero n s h k = absurd (omega arith)
digits-decimal_before (suc f) n s h k = elim (Bool-cases (ltb n 10)) [
  | inl small ↦
      let zero_before : 0 * 10 + n ≡ n = omega arith in
      rw small (
        digits-step 0 (48 + n) n s (digit-decimal n (ground arith))
        ∙ ap (λ m. digits 10 m s) zero_before)
  | inr large ↦
      let (many, less) = many_digits f n h large in
      let last : n % 10 < 10 = omega arith in
      let whole : n / 10 * 10 + n % 10 ≡ n = omega arith in
      rw large (
        digits-decimal_before f (n / 10) ((48 + n % 10) ∷ s) less many
        ∙ digits-step (n / 10) (48 + n % 10) (n % 10) s (digit-decimal (n % 10) last)
        ∙ ap (λ m. digits 10 m s) whole)
]

-- A printed number starts with a digit.
decimal_before-digit :
    (f n : ℕ) (s : List ℕ)
    → n < 10 ^ f
    → 0 < f
    → (d : ℕ) × (t : List ℕ) × (d < 10) × (decimal_before f n s ≡ (48 + d) ∷ t)
decimal_before-digit zero n s h k = absurd (omega arith)
decimal_before-digit (suc f) n s h k = elim (Bool-cases (ltb n 10)) [
  | inl small ↦ (n, s, ground arith, rw small refl)
  | inr large ↦
      let (many, less) = many_digits f n h large in
      let (d, t, lt, e) = decimal_before-digit f (n / 10) ((48 + n % 10) ∷ s) less many in
      (d, t, lt, rw large e)
]

strtol_plain :
    (c : ℕ) (s : List ℕ)
    → is_space c ≡ false
    → (c == b'-') ≡ false
    → (c == b'+') ≡ false
    → starts_with_digit 10 (c ∷ s) ≡ true
    → strtol 10 (c ∷ s) ≡ (clamp false (digits 10 0 (c ∷ s)).0, (digits 10 0 (c ∷ s)).1)
strtol_plain c [] space minus plus h = rw (space, minus, plus, h) refl
strtol_plain c (d ∷ s) space minus plus h = rw (space, minus, plus, h) refl

strtol-digit :
    (d : ℕ) (t : List ℕ)
    → d < 10
    → strtol 10 ((48 + d) ∷ t)
      ≡ (clamp false (digits 10 0 ((48 + d) ∷ t)).0, (digits 10 0 ((48 + d) ∷ t)).1)
strtol-digit d t h =
    strtol_plain (48 + d) t (ground arith) (ground arith) (ground arith)
      (ap (λ (o : Option ℕ). elim o [ none ↦ false | some e ↦ true ]) (digit-decimal d h))

-- Reading a printed number gives it back, and nothing is left.
pub strtol-decimal : (n : ℕ) → n < 2 ^ 63 → strtol 10 (decimal n) ≡ (pos n, [])
unfolding decimal
strtol-decimal n h =
    let (d, t, lt, e) = decimal_before-digit 20 n [] (omega arith) (omega arith) in
    let whole : digits 10 0 ((48 + d) ∷ t) ≡ (n, []) =
      ap (digits 10 0) (sym e) ∙ digits-decimal_before 20 n [] (omega arith) (omega arith) in
    ap (strtol 10) e ∙ strtol-digit d t lt ∙ rw (whole, lt→ltb n (2 ^ 63) h) refl

pub decimal-digit :
    (n : ℕ) → n < 2 ^ 63 → (d : ℕ) × (t : List ℕ) × (d < 10) × (decimal n ≡ (48 + d) ∷ t)
unfolding decimal
decimal-digit n h = decimal_before-digit 20 n [] (omega arith) (omega arith)

decimal_before-all :
    (p : ℕ → Bool)
    → ((d : ℕ) → d < 10 → p (48 + d) ≡ true)
    → (f n : ℕ) (s : List ℕ) → all p s ≡ true
    → all p (decimal_before f n s) ≡ true
decimal_before-all p h zero n s k = k
decimal_before-all p h (suc f) n s k = elim (Bool-cases (ltb n 10)) [
  | inl small ↦ rw (small, h n (ltb→lt n 10 small)) k
  | inr large ↦
      rw large
        (decimal_before-all p h f (n / 10) ((48 + n % 10) ∷ s) (rw (h (n % 10) (omega arith)) k))
]

-- What holds of the ten digits holds of every byte of a printed number.
pub decimal-all :
    (p : ℕ → Bool) → ((d : ℕ) → d < 10 → p (48 + d) ≡ true) → (n : ℕ) → all p (decimal n) ≡ true
unfolding decimal
decimal-all p h n = decimal_before-all p h 20 n [] refl
