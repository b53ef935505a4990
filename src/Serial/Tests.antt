-- ===== src/Serial/Tests.antt =====
-- Serial ports of src/clib/rserial.c, and the theorems about them at concrete values.
use mwptools.Common.{
  ℕ, ◌+◌, ◌*◌, ◌≤◌, ◌<◌, ◌≡◌, refl, true, false, some, List, [], ◌∷◌, replicate, length-replicate,
  arith,
}
use mwptools.Common.Int.{ℤ, pos, negsuc}
use mwptools.Common.CString.{codes}
use mwptools.Common.Result.{ok, fault, past_end}
use mwptools.Serial.Modes.{opost, bother, blank}
use mwptools.Serial.Open.{
  Line, Calls, open_serial_linux, open_serial_bsd, open_serial_mac, open_serial_other, close_serial,
}
use mwptools.Serial.Session.{IsBalanced, close_serial-open_fds, close_serial-modes, mode_after}
use mwptools.Serial.Transfer
use mwptools.Serial.Transfer.{read_serial, read_serial-bounded}
use mwptools.Serial.Windows
use mwptools.Serial.Settings.{full_name, plain_dcb, set_up, open_serial-set_up}
use mwptools.Serial.ErrorText.{get_error_text-fits}
use mwptools.Serial.Clock.{timespec_diff, timespec_diff-sum, time}

abbrev working : Calls
working = record {
  opens = true;
  get = true;
  set = true;
  get2 = true;
  set2 = true;
  set_ispeed = true;
}

abbrev no_speed : Calls
no_speed = record working { set2 = false }

abbrev line : Line
line = record { settings = record blank { modes = λ m. true }; rate = 9600; open_fds = 3 }

close_serial-open_fds_example :
    IsBalanced working line (open_serial_linux no_speed 115200 line)
    × IsBalanced working line (open_serial_bsd no_speed 115200 line)
    × IsBalanced working line (open_serial_mac no_speed 115200 line)
    × IsBalanced working line (open_serial_other no_speed 115200 line)
close_serial-open_fds_example = close_serial-open_fds no_speed working 115200 line

close_serial-modes_example :
    let after = close_serial working (open_serial_linux working 115200 line).1 in
    (after.settings.modes opost ≡ mode_after line.settings.modes opost)
    × (after.settings.csize ≡ 8)
    × (after.settings.baud ≡ bother)
    × (after.rate ≡ 115200)
    × (after.settings.vmin ≡ 1)
close_serial-modes_example = close_serial-modes working working 115200 line opost refl refl

read_serial-bounded_example :
    (n : ℕ) × (buffer' : List ℕ) × (read_serial (some (negsuc 0)) (1 ∷ 2 ∷ 3 ∷ []) 2 (0 ∷ 0 ∷ [])
      ≡ ok (n, buffer'))
    × (n ≤ 2)
read_serial-bounded_example =
    read_serial-bounded (some (negsuc 0)) (1 ∷ 2 ∷ 3 ∷ []) 2 (0 ∷ 0 ∷ []) refl (omega arith)

abbrev small : List ℕ
small = replicate 46 0

abbrev message : ℤ → List ℕ
message lerr = codes "Access is denied."

-- One byte is missing for the general text, and the other fits.
get_error_text-fits_example :
    (Transfer.get_error_text (λ e b. b) (pos 0) small ≡ fault past_end)
    × (Windows.get_error_text message (pos 5) small ≡ ok (codes "Access is denied. (0x5)"))
unfolding Windows.hex
get_error_text-fits_example = get_error_text-fits (λ e b. b) message (pos 5) small refl

-- A port whose state cannot be written is opened at its old rate.
abbrev stuck : Windows.Calls
stuck = record { creates = true; get_state = true; set_state = false; set_timeouts = true }

abbrev port : Windows.Port
port = record {
  dcb = plain_dcb 1200;
  timeouts = record {
    read_interval = 0;
    read_multiplier = 0;
    read_constant = 0;
    write_multiplier = 0;
    write_constant = 0;
  };
  handles = 0;
}

abbrev zeros : ℕ → List ℕ
zeros n = replicate n 0

open_serial-set_up_example :
    (r : Windows.Opened) × (Windows.open_serial stuck zeros (codes "COM12") 115200 port ≡ ok r)
    × (r.name ≡ full_name (codes "COM12"))
    × (r.handle ≡ true)
    × (r.port ≡ set_up stuck 115200 port)
    × (r.handle ≡ true → (Windows.close_serial r.port).handles ≡ 0)
open_serial-set_up_example =
    open_serial-set_up stuck zeros (codes "COM12") 115200 port (λ n. length-replicate n 0) refl

timespec_diff-sum_example :
    (d e : ℕ) × (timespec_diff (time 12 100) (time 11 999999999) ≡ time d e)
    × (e < 1000000000)
    × (11 * 1000000000 + 999999999 + (d * 1000000000 + e) ≡ 12 * 1000000000 + 100)
timespec_diff-sum_example =
    timespec_diff-sum 12 100 11 999999999 (omega arith) (omega arith) (omega arith)
