-- ===== src/Serial/Windows.antt =====
-- The Windows half of src/clib/rserial.c.
use mwptools.Common.{
  ℕ, zero, suc, ◌+◌, ◌-◌, ◌^◌, Bool, true, false, List, [], ◌++◌, length, if◌then◌else◌,
}
use mwptools.Common.Int.{ℤ, pos, negsuc}
use mwptools.Common.CString.{codes, starts_with}
use mwptools.Common.Result.{Result, ok, ◌>>=◌}
use mwptools.Common.Strtol.{to_unsigned}
use mwptools.Common.Buffer.{strcpy, text}
use mwptools.Common.Hex.{hex_before}
use mwptools.Serial.Transfer.{generr}

-- `DCB`, and `COMMTIMEOUTS`.
pub record Dcb : Type 0 where
  pub byte_size : ℕ
  pub stop_bits : ℕ
  pub parity : ℕ
  pub baud_rate : ℕ

pub record Timeouts : Type 0 where
  pub read_interval : ℕ
  pub read_multiplier : ℕ
  pub read_constant : ℕ
  pub write_multiplier : ℕ
  pub write_constant : ℕ

-- The port, with the number of handles of it that are open.
pub record Port : Type 0 where
  pub dcb : Dcb
  pub timeouts : Timeouts
  pub handles : ℕ

-- Whether `CreateFile`, `GetCommState`, `SetCommState` and `SetCommTimeouts` succeed.
pub record Calls : Type 0 where
  pub creates : Bool
  pub get_state : Bool
  pub set_state : Bool
  pub set_timeouts : Bool

-- Whether the result is 0, in place of -1. `ONESTOPBIT` and `NOPARITY` are 0.
unfoldable pub set_fd_speed : Calls → ℕ → Port → Bool × Port
set_fd_speed c baudrate p =
    if c.get_state
    then (let dcb : Dcb = record {
      byte_size = 8;
      stop_bits = 0;
      parity = 0;
      baud_rate = baudrate;
    } in
        (true, if c.set_state then record p { dcb = dcb } else p))
    else (false, p)

unfoldable pub set_timeout : Calls → ℕ → ℕ → ℕ → Port → Port
set_timeout c readint readmult readconst p =
    let t : Timeouts = record {
      read_interval = readint;
      read_multiplier = readmult;
      read_constant = readconst;
      write_multiplier = 0;
      write_constant = 0;
    } in
    if c.set_timeouts then record p { timeouts = t } else p

-- `dname`, the name that is opened: that of the device, or an array of `strlen(device)+16` bytes,
-- which `malloc` returns, with the name behind `\\.\`.
unfoldable pub file_name : (ℕ → List ℕ) → List ℕ → Result (List ℕ)
file_name malloc device =
    if starts_with (codes "COM") device
    then (strcpy 0 (codes "\\\\.\\") (malloc (length device + 16)) >>= λ d1.
        text d1 >>= λ start. strcpy (length start) device d1 >>= text)
    else ok device

abbrev pub maxdword : ℕ
maxdword = 2 ^ 32 - 1

-- The name that is opened, whether the result is a handle, in place of -1, and the port. What
-- `set_fd_speed` returns is not looked at.
pub record Opened : Type 0 where
  pub name : List ℕ
  pub handle : Bool
  pub port : Port

unfoldable pub open_serial : Calls → (ℕ → List ℕ) → List ℕ → ℕ → Port → Result Opened
unfolding file_name set_timeout set_fd_speed
open_serial c malloc device baudrate p = file_name malloc device >>= λ dname. ok (
    if c.creates
    then (let p1 = record p { handles = p.handles + 1 } in
        let p2 = set_timeout c maxdword maxdword 5 p1 in
        record { name = dname; handle = true; port = (set_fd_speed c baudrate p2).1 })
    else record { name = dname; handle = false; port = p })

unfoldable pub close_serial : Port → Port
close_serial p = record p { handles = p.handles - 1 }

-- How a transfer goes: at once, or later, with the number of bytes that `nb` then has, whether or not
-- `GetOverlappedResult` succeeds; or not at all.
pub data Transfer : Type 0 where
  at_once : ℕ → Transfer
  later : Bool → ℕ → Transfer
  refused : Transfer

-- `nb` behind `ReadFile` or `WriteFile`.
abbrev pub transferred : Transfer → ℕ
transferred (at_once nb) = nb
transferred (later succeeds nb) = nb
transferred refused = 0

-- The result, and the number of open handles with that of the event.
unfoldable pub read_serial : Transfer → ℕ → ℤ × ℕ
read_serial t handles = let events = handles + 1 in let nb = transferred t in (pos nb, events - 1)

unfoldable pub write_serial : Transfer → ℕ → ℤ × ℕ
write_serial t handles = let events = handles + 1 in let nb = transferred t in (pos nb, events - 1)

-- `%x`
unfoldable pub hex : ℤ → List ℕ
hex n = hex_before 8 (to_unsigned 32 n) []

-- `"%s (0x%x)"`
abbrev pub error_message : (ℤ → List ℕ) → ℤ → List ℕ
error_message message lerr = message lerr ++ (codes " (0x" ++ (hex lerr ++ codes ")"))

-- The first argument stands for `g_win32_error_message`. `sprintf` writes as `strcpy` does.
unfoldable pub get_error_text : (ℤ → List ℕ) → ℤ → List ℕ → Result (List ℕ)
get_error_text message (pos zero) buf = strcpy 0 [] buf >>= λ b. strcpy 0 generr b >>= text
get_error_text message (pos (suc n)) buf =
    strcpy 0 [] buf >>= λ b. strcpy 0 (error_message message (pos (suc n))) b >>= text
get_error_text message (negsuc n) buf =
    strcpy 0 [] buf >>= λ b. strcpy 0 (error_message message (negsuc n)) b >>= text
