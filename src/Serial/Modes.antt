-- ===== src/Serial/Modes.antt =====
-- `struct termios` as src/clib/rserial.c uses it.
use mwptools.Common.{ℕ, Bool, false, not, ◌&&◌, ◌||◌, List, [], ◌∷◌, ◌+◌, ◌==◌}

-- The one-bit modes that the code names; `other` stands for the rest.
pub data Mode : Type 0 where
  ignbrk brkint ignpar parmrk istrip inlcr igncr icrnl ixon opost echo echoe echok echonl icanon
        isig :
      Mode
  iexten parenb cread : Mode
  other : ℕ → Mode

abbrev pub number : Mode → ℕ
number ignbrk = 0
number brkint = 1
number ignpar = 2
number parmrk = 3
number istrip = 4
number inlcr = 5
number igncr = 6
number icrnl = 7
number ixon = 8
number opost = 9
number echo = 10
number echoe = 11
number echok = 12
number echonl = 13
number icanon = 14
number isig = 15
number iexten = 16
number parenb = 17
number cread = 18
number (other n) = 19 + n

-- The field `CBAUD`: a constant, or `BOTHER`, where the rate is a number of its own.
pub data Baud : Type 0 where
  constant : ℕ → Baud
  bother : Baud

-- `csize` is the number of bits that the field `CSIZE` stands for.
pub record Termios : Type 0 where
  pub modes : Mode → Bool
  pub csize : ℕ
  pub baud : Baud
  pub vtime : ℕ
  pub vmin : ℕ

-- `struct termios tio = {0}`; the constant `CS5` is 0.
abbrev pub blank : Termios
blank = record { modes = λ m. false; csize = 5; baud = constant 0; vtime = 0; vmin = 0 }

abbrev pub is_in : Mode → List Mode → Bool
is_in m [] = false
is_in m (k ∷ ks) = number m == number k || is_in m ks

-- `flags &= ~(a | b | ..)` and `flags |= a`
abbrev pub clear : List Mode → (Mode → Bool) → Mode → Bool
clear ks f m = f m && not (is_in m ks)

abbrev pub raise : List Mode → (Mode → Bool) → Mode → Bool
raise ks f m = f m || is_in m ks
