-- ===== src/Serial/Clock.antt =====
-- `timespec_diff` of src/clib/rserial.c, which the measure of the CPU load uses.
use mwptools.Common.{
  ℕ, ◌+◌, ◌-◌, ◌*◌, ◌≤◌, ◌<◌, ◌≡◌, refl, true, false, ltb, ltb→lt, if◌then◌else◌, arith, Bool-cases,
  inl, inr,
}
use mwptools.Common.Int.{ℤ, pos, negsuc, ◌+ℤ◌, ◌-ℤ◌, ltb_ℤ}

pub record Timespec : Type 0 where
  pub tv_sec : ℤ
  pub tv_nsec : ℤ

-- The differences of `long` do not overflow for the times of a clock.
unfoldable pub timespec_diff : Timespec → Timespec → Timespec
timespec_diff a b =
    let sec = a.tv_sec -ℤ b.tv_sec in
    let nsec = a.tv_nsec -ℤ b.tv_nsec in
    if ltb_ℤ nsec (pos 0)
    then record { tv_sec = sec -ℤ pos 1; tv_nsec = nsec +ℤ pos 1000000000 }
    else record { tv_sec = sec; tv_nsec = nsec }

sub_pos : (a b : ℕ) → b ≤ a → pos a -ℤ pos b ≡ pos (a - b)
unfolding ◌-ℤ◌
sub_pos a b h = ground arith

sub_neg : (a b : ℕ) → a < b → pos a -ℤ pos b ≡ negsuc (b - a - 1)
unfolding ◌-ℤ◌
sub_neg a b h = ground arith

add_neg : (m n : ℕ) → m < n → negsuc m +ℤ pos n ≡ pos (n - m - 1)
unfolding ◌+ℤ◌
add_neg m n h = ground arith

ltb_neg : (m : ℕ) → ltb_ℤ (negsuc m) (pos 0) ≡ true
ltb_neg m = ground arith

ltb_pos : (m : ℕ) → ltb_ℤ (pos m) (pos 0) ≡ false
ltb_pos m = ground arith

-- A time as the clock gives it: after the epoch, with fewer nanoseconds than a second has.
abbrev pub time : ℕ → ℕ → Timespec
time s n = record { tv_sec = pos s; tv_nsec = pos n }

-- The difference of a time and an earlier one is again such a time, and their sum is the later one in
-- nanoseconds.
pub timespec_diff-sum :
    (s n t k : ℕ)
    → n < 1000000000
    → k < 1000000000
    → t * 1000000000 + k ≤ s * 1000000000 + n
    → (d e : ℕ) × (timespec_diff (time s n) (time t k) ≡ time d e)
      × (e < 1000000000)
      × (t * 1000000000 + k + (d * 1000000000 + e) ≡ s * 1000000000 + n)
unfolding timespec_diff
timespec_diff-sum s n t k h i later = elim (Bool-cases (ltb n k)) [
  | inl borrow ↦
      let less : n < k = ltb→lt n k borrow in
      (
        s - t - 1,
        1000000000 - (k - n - 1) - 1,
        rw
            (
              sub_neg n k less,
              sub_pos s t (omega arith),
              sub_pos (s - t) 1 (omega arith),
              add_neg (k - n - 1) 1000000000 (omega arith),
              ltb_neg (k - n - 1),
            )
            refl,
        omega arith,
        omega arith,
      )
  | inr enough ↦
      let more : k ≤ n = ground arith in
      (
        s - t,
        n - k,
        rw (sub_pos n k more, sub_pos s t (omega arith), ltb_pos (n - k)) refl,
        omega arith,
        omega arith,
      )
]
