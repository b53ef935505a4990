-- ===== src/Serial/Settings.antt =====
-- What `open_serial` of src/clib/rserial.c leaves of a port on Windows.
use mwptools.Common.{
  ℕ, ◌+◌, ◌<◌, ◌≡◌, refl, true, false, ◌&&◌, List, [], ◌∷◌, ◌++◌, length, drop, if◌then◌else◌,
  arith, Bool-cases, inl, inr,
}
use mwptools.Common.CString.{codes, starts_with}
use mwptools.Common.Result.{ok}
use mwptools.Common.Buffer.{
  strcpy, has_no_nul, strcpy-append, text-append, has_no_nul-append, length-drop,
}
use mwptools.Serial.Windows.{
  Dcb, Timeouts, Port, Calls, set_fd_speed, set_timeout, file_name, maxdword, Opened, open_serial,
  close_serial,
}

-- The name that is opened: a port `COM..` is asked for as `\\.\COM..`.
abbrev pub full_name : List ℕ → List ℕ
full_name device = if starts_with (codes "COM") device then codes "\\\\.\\" ++ device else device

file_name-ok :
    (malloc : ℕ → List ℕ) (device : List ℕ)
    → ((n : ℕ) → length (malloc n) ≡ n)
    → has_no_nul device ≡ true
    → file_name malloc device ≡ ok (full_name device)
unfolding file_name
file_name-ok malloc device sized clean = elim (Bool-cases (starts_with (codes "COM") device)) [
  | inr other ↦ rw other refl
  | inl com_port ↦
      let buf : List ℕ = malloc (length device + 16) in
      let size : length buf ≡ length device + 16 = sized (length device + 16) in
      let rest : List ℕ = drop 5 buf in
      let copied : strcpy 0 (codes "\\\\.\\") buf ≡ ok (codes "\\\\.\\" ++ 0 ∷ rest) =
        strcpy-append 0 [] (codes "\\\\.\\") buf refl (omega arith) in
      let room : length device < length (0 ∷ rest) = omega (arith, length-drop 5 buf) in
      rw (com_port, copied, strcpy-append 4 (codes "\\\\.\\") device (0 ∷ rest) refl room)
        (text-append (codes "\\\\.\\" ++ device) (drop (length device + 1) (0 ∷ rest))
          (has_no_nul-append (codes "\\\\.\\") device refl clean))
]

-- 8 data bits, no parity, one stop bit.
abbrev pub plain_dcb : ℕ → Dcb
plain_dcb baudrate = record { byte_size = 8; stop_bits = 0; parity = 0; baud_rate = baudrate }

-- A read returns what has come, and waits for 5 ms at most when nothing has.
abbrev pub quick : Timeouts
quick = record {
  read_interval = maxdword;
  read_multiplier = maxdword;
  read_constant = 5;
  write_multiplier = 0;
  write_constant = 0;
}

-- The port that is left, from the calls that succeed.
abbrev pub set_up : Calls → ℕ → Port → Port
set_up c baudrate p = record {
  dcb = if c.get_state && c.set_state then plain_dcb baudrate else p.dcb;
  timeouts = if c.set_timeouts then quick else p.timeouts;
  handles = p.handles + 1;
}

set_fd_speed-port :
    (c : Calls) (baudrate : ℕ) (p : Port)
    → (set_fd_speed c baudrate p).1
      ≡ record p { dcb = if c.get_state && c.set_state then plain_dcb baudrate else p.dcb }
unfolding set_fd_speed
set_fd_speed-port c baudrate p = ground arith

set_timeout-port :
    (c : Calls) (p : Port)
    → set_timeout c maxdword maxdword 5 p
      ≡ record p { timeouts = if c.set_timeouts then quick else p.timeouts }
unfolding set_timeout
set_timeout-port c p = ground arith

-- On Windows the name of any port is put together without a write past the array it stands in, and the
-- port is opened under it, a port `COM..` as `\\.\COM..`. The result is a handle exactly when the file
-- can be opened, whatever becomes of the settings: the port has the rate, with 8 data bits, no parity
-- and one stop bit, only when its state can be read and written, and otherwise the settings that it
-- had; likewise the times. Closing brings the number of handles back.
pub open_serial-set_up :
    (c : Calls) (malloc : ℕ → List ℕ) (device : List ℕ) (baudrate : ℕ) (p : Port)
    → ((n : ℕ) → length (malloc n) ≡ n)
    → has_no_nul device ≡ true
    → (r : Opened) × (open_serial c malloc device baudrate p ≡ ok r)
      × (r.name ≡ full_name device)
      × (r.handle ≡ c.creates)
      × (r.port ≡ (if c.creates then set_up c baudrate p else p))
      × (r.handle ≡ true → (close_serial r.port).handles ≡ p.handles)
unfolding open_serial close_serial
open_serial-set_up c malloc device baudrate p sized clean = elim (Bool-cases c.creates) [
  | inr fails ↦ (
    record { name = full_name device; handle = false; port = p },
    rw (file_name-ok malloc device sized clean, fails) refl,
    refl,
    rw fails refl,
    rw fails refl,
    λ e. absurd (cc),
  )
  | inl works ↦ (
    record { name = full_name device; handle = true; port = set_up c baudrate p },
    rw
        (
          file_name-ok malloc device sized clean,
          set_timeout-port c (record p { handles = p.handles + 1 }),
          set_fd_speed-port c baudrate (record p {
            handles = p.handles + 1;
            timeouts = if c.set_timeouts then quick else p.timeouts;
          }),
          works,
        )
        refl,
    refl,
    rw works refl,
    rw works refl,
    λ e. omega arith,
  )
]
