-- ===== src/Suspend/Idle.antt =====
-- `inhibit` and `uninhibit` of src/clib/winidle.c.
use mwptools.Common.{ℕ, zero, suc, ◌+◌, ◌≡◌, refl, if◌then◌else◌, ◌==◌, arith}

-- The time of the screen saver, the execution state of the thread, and `mPrevScreenSaver`. The calls
-- of the system succeed, as the code assumes.
pub record Idle : Type 0 where
  pub timeout : ℕ
  pub execution : ℕ
  pub previous : ℕ

-- `ES_DISPLAY_REQUIRED | ES_SYSTEM_REQUIRED | ES_CONTINUOUS`
abbrev pub kept_awake : ℕ
kept_awake = 2 + 1 + 2147483648

unfoldable pub uninhibit : ℕ → Idle → Idle
uninhibit cookie s = record s { timeout = s.previous; execution = cookie }

-- The cookie, and what is left.
unfoldable pub inhibit : Idle → ℕ × Idle
inhibit s =
    let cookie = s.execution in
    (cookie, record { timeout = 0; execution = kept_awake; previous = s.timeout })

-- Inhibitions inside one another, each taken back with its own cookie.
unfoldable pub nest : ℕ → Idle → Idle
unfolding inhibit uninhibit
nest zero s = s
nest (suc n) s = let (cookie, s1) = inhibit s in uninhibit cookie (nest n s1)

previous-nest :
    (n : ℕ) (s : Idle) → s.timeout ≡ 0 → (nest n s).previous ≡ (if n == 0 then s.previous else 0)
unfolding nest inhibit uninhibit
previous-nest zero s h = refl
previous-nest (suc n) s h = ground (
  arith,
  previous-nest n (record { timeout = 0; execution = kept_awake; previous = s.timeout }) refl,
)

-- Inhibitions that are nested and all taken back leave the execution state as it was. The time of the
-- screen saver is as it was when there is one of them, and 0 when there are more: the variable with
-- the time is overwritten by the second.
pub nest-restored :
    (n : ℕ) (s : Idle)
    → ((nest (suc n) s).execution ≡ s.execution)
      × ((nest (suc n) s).timeout ≡ (if n == 0 then s.timeout else 0))
unfolding nest inhibit uninhibit
nest-restored n s = (
  refl,
  previous-nest n (record { timeout = 0; execution = kept_awake; previous = s.timeout }) refl,
)
