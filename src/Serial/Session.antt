-- ===== src/Serial/Session.antt =====
-- What opening and closing a port of src/clib/rserial.c leaves behind.
use mwptools.Common.{
  ℕ, ◌+◌, ◌-◌, ◌≡◌, refl, ap, ◌∙◌, Bool, true, false, ◌&&◌, List, [], ◌∷◌, if◌then◌else◌, arith,
}
use mwptools.Serial.Modes.{
  Mode, ignbrk, brkint, ignpar, parmrk, istrip, inlcr, igncr, icrnl, ixon, opost, echo, echoe,
  echok, echonl, icanon, isig, iexten, parenb, cread, other, bother, Termios, is_in,
}
use mwptools.Serial.Open.{
  Line, Calls, open_serial, open_serial_linux, open_serial_bsd, open_serial_mac, open_serial_other,
  close_serial, make_raw, make_sane,
}

-- One descriptor more is open if one was returned, and none if the result is -1; closing it brings
-- the number back.
abbrev pub IsBalanced : Calls → Line → Bool × Line → Type 0
IsBalanced d l r =
    (r.1.open_fds ≡ (if r.0 then l.open_fds + 1 else l.open_fds))
    × (r.0 ≡ true → (close_serial d r.1).open_fds ≡ l.open_fds)

module _ (c d : Calls) (rate : ℕ) (l : Line) where
  open_linux-IsBalanced : IsBalanced d l (open_serial_linux c rate l)
  unfolding open_serial_linux open_serial close_serial
  open_linux-IsBalanced = ground arith

  open_bsd-IsBalanced : IsBalanced d l (open_serial_bsd c rate l)
  unfolding open_serial_bsd open_serial close_serial
  open_bsd-IsBalanced = ground arith

  open_mac-IsBalanced : IsBalanced d l (open_serial_mac c rate l)
  unfolding open_serial_mac open_serial close_serial
  open_mac-IsBalanced = ground arith

  open_other-IsBalanced : IsBalanced d l (open_serial_other c rate l)
  unfolding open_serial_other open_serial close_serial
  open_other-IsBalanced = ground arith

-- Whichever calls fail, one descriptor more is open if `open_serial` returns one, and none if it
-- returns -1, on Linux, FreeBSD, macOS and the others; and closing it, whichever calls fail then,
-- brings the number back.
pub close_serial-open_fds :
    (c d : Calls) (rate : ℕ) (l : Line)
    → IsBalanced d l (open_serial_linux c rate l)
      × IsBalanced d l (open_serial_bsd c rate l)
      × IsBalanced d l (open_serial_mac c rate l)
      × IsBalanced d l (open_serial_other c rate l)
close_serial-open_fds c d rate l = (
  open_linux-IsBalanced c d rate l,
  open_bsd-IsBalanced c d rate l,
  open_mac-IsBalanced c d rate l,
  open_other-IsBalanced c d rate l,
)

-- The modes after a session, from those before it.
abbrev pub on_after : List Mode
on_after = brkint ∷ ignpar ∷ isig ∷ cread ∷ []

abbrev pub off_after : List Mode
off_after =
    ignbrk ∷ parmrk ∷ istrip ∷ inlcr ∷ igncr ∷ icrnl ∷ ixon ∷ opost ∷ echo ∷ echoe ∷ echok ∷ echonl
    ∷ icanon ∷ iexten ∷ parenb ∷ []

abbrev pub mode_after : (Mode → Bool) → Mode → Bool
mode_after before m =
    if is_in m on_after then true else if is_in m off_after then false else before m

abbrev raw_line : ℕ → Line → Line
raw_line rate l = record {
  settings = record (make_raw l.settings) { baud = bother };
  rate = rate;
  open_fds = l.open_fds + 1;
}

open_serial-raw :
    (c : Calls) (rate : ℕ) (l : Line)
    → (c.opens && (c.get && (c.set && (c.get2 && c.set2)))) ≡ true
    → open_serial_linux c rate l ≡ (true, raw_line rate l)
unfolding open_serial_linux open_serial
open_serial-raw c rate l h = ground arith

close_serial-sane :
    (d : Calls) (l : Line)
    → (d.get && d.set) ≡ true
    → close_serial d l ≡ record l { settings = make_sane l.settings; open_fds = l.open_fds - 1 }
unfolding close_serial
close_serial-sane d l k = ground arith

sane-raw : (t : Termios) (m : Mode) → (make_sane (make_raw t)).modes m ≡ mode_after t.modes m
sane-raw t ignbrk = ground arith
sane-raw t brkint = ground arith
sane-raw t ignpar = ground arith
sane-raw t parmrk = ground arith
sane-raw t istrip = ground arith
sane-raw t inlcr = ground arith
sane-raw t igncr = ground arith
sane-raw t icrnl = ground arith
sane-raw t ixon = ground arith
sane-raw t opost = ground arith
sane-raw t echo = ground arith
sane-raw t echoe = ground arith
sane-raw t echok = ground arith
sane-raw t echonl = ground arith
sane-raw t icanon = ground arith
sane-raw t isig = ground arith
sane-raw t iexten = ground arith
sane-raw t parenb = ground arith
sane-raw t cread = ground arith
sane-raw t (other n) = ground arith

-- When every call succeeds, a port that was opened on Linux with a rate and closed again keeps that
-- rate, characters of 8 bits without parity, and has the modes of `mode_after`: four are on, fifteen
-- are off, whatever they were before, and the others are as they were.
pub close_serial-modes :
    (c d : Calls) (rate : ℕ) (l : Line) (m : Mode)
    → (c.opens && (c.get && (c.set && (c.get2 && c.set2)))) ≡ true
    → (d.get && d.set) ≡ true
    → let after = close_serial d (open_serial_linux c rate l).1 in
      (after.settings.modes m ≡ mode_after l.settings.modes m)
      × (after.settings.csize ≡ 8)
      × (after.settings.baud ≡ bother)
      × (after.rate ≡ rate)
      × (after.settings.vmin ≡ 1)
close_serial-modes c d rate l m h k =
    let whole : close_serial d (open_serial_linux c rate l).1 ≡ record (raw_line rate l) {
      settings = make_sane (record (make_raw l.settings) { baud = bother });
      open_fds = l.open_fds + 1 - 1;
    } =
      ap (λ r. close_serial d r.1) (open_serial-raw c rate l h)
      ∙ close_serial-sane d (raw_line rate l) k in
    rw whole (sane-raw l.settings m, refl, refl, refl, refl)
