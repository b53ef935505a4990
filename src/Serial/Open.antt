-- ===== src/Serial/Open.antt =====
-- `set_fd_speed`, `open_serial` and `close_serial` of src/clib/rserial.c on POSIX systems.
use mwptools.Common.{ℕ, ◌+◌, ◌-◌, Bool, true, false, ◌&&◌, ◌||◌, List, [], ◌∷◌, ◌==◌, if◌then◌else◌}
use mwptools.Serial.Modes.{
  ignbrk, brkint, ignpar, parmrk, istrip, inlcr, igncr, icrnl, ixon, opost, echo, echoe, echok,
  echonl, icanon, isig, iexten, parenb, cread, constant, bother, Termios, blank, clear, raise,
}

-- The line: its settings, its rate, and how many descriptors are open.
pub record Line : Type 0 where
  pub settings : Termios
  pub rate : ℕ
  pub open_fds : ℕ

-- Whether the calls of `open`, of `TCGETS` and `TCSETS` (`tcgetattr` and `tcsetattr` elsewhere), of
-- `TCGETS2` and `TCSETS2`, and of `cfsetispeed` succeed.
pub record Calls : Type 0 where
  pub opens : Bool
  pub get : Bool
  pub set : Bool
  pub get2 : Bool
  pub set2 : Bool
  pub set_ispeed : Bool

-- Linux: whether the result is not -1.
pub set_fd_speed_linux : Calls → ℕ → Line → Bool × Line
set_fd_speed_linux c rate l =
    if c.get2
    then (if c.set2
        then (true, record l { settings = record l.settings { baud = bother }; rate = rate })
        else (false, l))
    else (false, l)

-- FreeBSD, where a rate is its own constant.
pub set_fd_speed_bsd : Calls → ℕ → Line → Bool × Line
set_fd_speed_bsd c rate l =
    if c.get2
    then (if rate == 0
        then (false, l)
        else if c.set_ispeed
        then (if c.set2
            then (
              true,
              record l { settings = record l.settings { baud = constant rate }; rate = rate },
            )
            else (false, l))
        else (true, l))
    else (false, l)

-- macOS.
pub set_fd_speed_mac : Calls → ℕ → Line → Bool × Line
set_fd_speed_mac c rate l = if c.set2 then (true, record l { rate = rate }) else (false, l)

-- Other systems, where the constant of a rate is named by it; there is none for a rate that is not
-- listed.
abbrev pub is_listed : ℕ → List ℕ → Bool
is_listed rate [] = false
is_listed rate (r ∷ rs) = rate == r || is_listed rate rs

pub rate_to_constant : ℕ → ℕ
rate_to_constant rate =
    if is_listed rate (
      50 ∷ 75 ∷ 110 ∷ 134 ∷ 150 ∷ 200 ∷ 300 ∷ 600 ∷ 1200 ∷ 1800 ∷ 2400 ∷ 4800 ∷ 9600 ∷ 19200 ∷ 38400
      ∷ 57600 ∷ 115200 ∷ 230400 ∷ [])
    then rate
    else 0

pub set_fd_speed_other : Calls → ℕ → Line → Bool × Line
unfolding set_fd_speed_bsd
set_fd_speed_other c rate l = set_fd_speed_bsd c (rate_to_constant rate) l

-- The modes that `open_serial` sets.
abbrev pub make_raw : Termios → Termios
make_raw t =
    let i = clear (ignbrk ∷ brkint ∷ parmrk ∷ istrip ∷ inlcr ∷ igncr ∷ icrnl ∷ ixon ∷ []) t.modes in
    let o = clear (opost ∷ []) i in
    let l = clear (echo ∷ echonl ∷ icanon ∷ isig ∷ iexten ∷ []) o in
    let c = clear (parenb ∷ []) l in record t { modes = c; csize = 8; vtime = 1; vmin = 1 }

-- The argument in the middle is `set_fd_speed(fd, baudrate)`. The result is whether a descriptor is
-- returned, in place of -1.
unfoldable pub open_serial : Calls → (Line → Bool × Line) → Line → Bool × Line
open_serial c set_speed l =
    if c.opens
    then (let l1 = record l { open_fds = l.open_fds + 1 } in
        let l2 = if c.get && c.set then record l1 { settings = make_raw l1.settings } else l1 in
        let (works, l3) = set_speed l2 in
        if works then (true, l3) else (false, record l3 { open_fds = l3.open_fds - 1 }))
    else (false, l)

-- The modes that `close_serial` sets.
abbrev pub make_sane : Termios → Termios
make_sane t =
    let i1 = clear (ignbrk ∷ []) t.modes in
    let i2 = raise (ignpar ∷ []) (raise (brkint ∷ []) i1) in
    let i3 = clear (inlcr ∷ igncr ∷ icrnl ∷ []) (clear (istrip ∷ []) (clear (parmrk ∷ []) i2)) in
    let c = raise (cread ∷ []) i3 in
    let l1 = clear (icanon ∷ []) (raise (isig ∷ []) c) in
    let l2 = clear (iexten ∷ []) (clear (echo ∷ echoe ∷ echok ∷ echonl ∷ []) l1) in
    record t { modes = l2; csize = 8; vtime = 0; vmin = 1 }

-- When the settings cannot be read, those that are written back start from zeros.
unfoldable pub close_serial : Calls → Line → Line
close_serial c l =
    let tio = if c.get then l.settings else blank in
    let l1 = if c.set then record l { settings = make_sane tio } else l in
    record l1 { open_fds = l1.open_fds - 1 }

unfoldable pub open_serial_linux : Calls → ℕ → Line → Bool × Line
unfolding set_fd_speed_linux
open_serial_linux c rate l = open_serial c (set_fd_speed_linux c rate) l

unfoldable pub open_serial_bsd : Calls → ℕ → Line → Bool × Line
unfolding set_fd_speed_bsd
open_serial_bsd c rate l = open_serial c (set_fd_speed_bsd c rate) l

unfoldable pub open_serial_mac : Calls → ℕ → Line → Bool × Line
unfolding set_fd_speed_mac
open_serial_mac c rate l = open_serial c (set_fd_speed_mac c rate) l

unfoldable pub open_serial_other : Calls → ℕ → Line → Bool × Line
unfolding set_fd_speed_other
open_serial_other c rate l = open_serial c (set_fd_speed_other c rate) l
