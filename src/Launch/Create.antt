-- ===== src/Launch/Create.antt =====
-- `create_win_process` of src/common/winproc.c.
use mwptools.Common.{ℕ, ◌+◌, ◌-◌, ◌/◌, ◌%◌, Bool, true, false, ◌&&◌, ◌==◌, if◌then◌else◌}

-- `(flags & bit) == bit` for the bits of `ProcessLaunch`, and for `PROCESS_LAUNCH_WINSPECIAL`, 10.
abbrev pub has_stdin : ℕ → Bool
has_stdin flags = flags % 2 == 1

abbrev pub has_stdout : ℕ → Bool
has_stdout flags = flags / 2 % 2 == 1

abbrev pub has_stderr : ℕ → Bool
has_stderr flags = flags / 4 % 2 == 1

abbrev pub has_winspecial : ℕ → Bool
has_winspecial flags = flags / 2 % 2 == 1 && flags / 8 % 2 == 1

-- The two ends of a pipe, whether they are open; `child` is the end that the new process inherits.
pub record Pipe : Type 0 where
  pub parent : Bool
  pub child : Bool

-- The pipes `ipipes`, `spipes`, `epipes`; the handles of `NUL` that are open; and how often an end was
-- closed that was not open.
pub record Ends : Type 0 where
  pub stdin : Pipe
  pub stdout : Pipe
  pub stderr : Pipe
  pub nul_handles : ℕ
  pub bad_closes : ℕ

abbrev pub unopened : Pipe
unopened = record { parent = false; child = false }

abbrev pub opened : Pipe
opened = record { parent = true; child = true }

abbrev pub start : Ends
start = record {
  stdin = unopened;
  stdout = unopened;
  stderr = unopened;
  nul_handles = 0;
  bad_closes = 0;
}

-- What comes before `CreateProcess`, from whether stdin, stdout and stderr are asked for.
pub open_pipes : Bool → Bool → Bool → Ends → Ends
open_pipes i o r e =
    let e1 = if i then record e { stdin = opened } else e in
    let e2 =
      if o then record e1 { stdout = opened } else record e1 { nul_handles = e1.nul_handles + 1 } in
    if r then record e2 { stderr = opened } else record e2 { nul_handles = e2.nul_handles + 1 }

-- `close(ipipes[0])`, `close(spipes[1])`, `close(epipes[1])`
abbrev pub close_stdin : Ends → Ends
close_stdin e =
    if e.stdin.child
    then record e { stdin = record e.stdin { child = false } }
    else record e { bad_closes = e.bad_closes + 1 }

abbrev pub close_stdout : Ends → Ends
close_stdout e =
    if e.stdout.child
    then record e { stdout = record e.stdout { child = false } }
    else record e { bad_closes = e.bad_closes + 1 }

abbrev pub close_stderr : Ends → Ends
close_stderr e =
    if e.stderr.child
    then record e { stderr = record e.stderr { child = false } }
    else record e { bad_closes = e.bad_closes + 1 }

pub close_children : Bool → Bool → Bool → Ends → Ends
close_children i o r e =
    let e1 = if i then close_stdin e else e in
    let e2 = if o then close_stdout e1 else e1 in if r then close_stderr e2 else e2

-- Whether `*sinp`, `*sout` and `*eout` are set to an end of a pipe, whether the process is created
-- detached, the ends, whether the result is a handle, and how many handles of the process and of its
-- thread are open.
pub record Launched : Type 0 where
  pub sinp : Bool
  pub sout : Bool
  pub eout : Bool
  pub detached : Bool
  pub ends : Ends
  pub hprocess : Bool
  pub handles : ℕ

-- The first argument is what `CreateProcess` returns, the last whether the process is special.
unfoldable pub launch : Bool → Bool → Bool → Bool → Bool → Launched
unfolding open_pipes close_children
launch created i o r special =
    let closed = close_children i o r (open_pipes i o r start) in
    record {
      sinp = i;
      sout = o;
      eout = r;
      detached = special;
      ends = if created then closed else close_children i o r closed;
      hprocess = created;
      handles = if created then 2 - 1 else 0;
    }

unfoldable pub create_win_process : Bool → ℕ → Launched
unfolding launch
create_win_process created flags =
    launch created (has_stdin flags) (has_stdout flags) (has_stderr flags) (has_winspecial flags)
