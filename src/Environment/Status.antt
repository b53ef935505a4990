-- ===== src/Environment/Status.antt =====
-- `parse_wstatus` of src/common/posix_psmisc.c.
use mwptools.Common.{
  ℕ, ◌+◌, ◌*◌, ◌/◌, ◌%◌, ◌<◌, ◌≡◌, refl, Bool, true, Option, none, some, ◌==◌, if◌then◌else◌, arith,
}

-- `WIFEXITED` and `WEXITSTATUS` of a status: the low seven bits are the signal, and the second byte is
-- the exit code.
abbrev pub wifexited : ℕ → Bool
wifexited sts = sts % 128 == 0

abbrev pub wexitstatus : ℕ → ℕ
wexitstatus sts = sts / 256 % 256

-- The result, and what is stored where there is a place for it.
unfoldable pub parse_wstatus : ℕ → Bool → Bool × Option ℕ
parse_wstatus sts stores =
    let res = wifexited sts in
    let wsts : ℕ = if res then wexitstatus sts else 0 in (res, if stores then some wsts else none)

-- A status made of an exit code and a signal is read back: the code of a process that exited, and 0
-- for one that a signal ended.
pub parse_wstatus-made :
    (code signal : ℕ)
    → code < 256
    → signal < 128
    → parse_wstatus (code * 256 + signal) true
      ≡ (signal == 0, some (if signal == 0 then code else 0))
unfolding parse_wstatus
parse_wstatus-made code signal c s =
    let low : (code * 256 + signal) % 128 ≡ signal = omega arith in
    let high : (code * 256 + signal) / 256 % 256 ≡ code = omega arith in rw (low, high) refl
