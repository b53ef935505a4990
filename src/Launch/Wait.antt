-- ===== src/Launch/Wait.antt =====
-- `waitproc` and `proc_kill` of src/common/winproc.c.
use mwptools.Common.{
  ℕ, ◌+◌, ◌-◌, ◌≡◌, refl, Bool, true, false, ◌&&◌, Option, none, some, List, ◌∷◌, if◌then◌else◌,
}
use mwptools.Common.Int.{ℤ, pos}
use mwptools.Common.Strtol.{to_int}
use mwptools.Launch.Create.{has_stdin, has_stdout, has_stderr, create_win_process, launch}
use mwptools.Launch.Ends.{IsLaunched, create_win_process-ends}

-- The result, what is written through `sts`, if anything, and the handles that are open.
pub record Waited : Type 0 where
  pub rv : Bool
  pub sts : Option ℤ
  pub handles : ℕ

-- `GetExitCodeProcess` fails where there is no code; `wait_status` then keeps the bytes that it has by
-- chance. The first argument is whether `h` is not NULL, the fourth whether `sts` is not NULL.
unfoldable pub waitproc : Bool → Option ℕ → ℕ → Bool → ℕ → Waited
waitproc false code chance stores handles = record { rv = false; sts = none; handles = handles }
waitproc true none chance stores handles = record {
  rv = false;
  sts = if stores then some (to_int (pos chance)) else none;
  handles = handles - 1;
}
waitproc true (some code) chance stores handles = record {
  rv = true;
  sts = if stores then some (to_int (pos code)) else none;
  handles = handles - 1;
}

-- The processes that were terminated, with their exit codes, and the open handles.
pub record Killed : Type 0 where
  pub terminated : List (ℕ × ℕ)
  pub handles : ℕ

-- The first argument is whether the process can be opened.
unfoldable pub proc_kill : Bool → ℕ → Killed → Killed
proc_kill opens pid s =
    if opens
    then (let s1 = record s { handles = s.handles + 1 } in
        let s2 = record s1 { terminated = (pid, 1) ∷ s1.terminated } in
        record s2 { handles = s2.handles - 1 })
    else s

abbrev pub is_some : Option ℕ → Bool
is_some none = false
is_some (some n) = true

abbrev pub code_or : ℕ → Option ℕ → ℕ
code_or chance none = chance
code_or chance (some code) = code

-- Whether or not the process can be created, the caller gets the open end of a pipe for exactly the
-- streams it asked for, and the other end is closed; one handle of `NUL` stays open for each of
-- stdout and stderr that it did not ask for. No end is closed twice when the process is created; when
-- it is not, one is for each stream that was asked for. The wait for its end closes its handle. The
-- wait succeeds exactly when the process was created and its code can be asked for. Where it was
-- created, the code is stored as an `int`, if the caller has a place for it; a code that cannot be
-- asked for is stored as well, as the bytes that the variable has by chance. Where it was not,
-- nothing is stored.
pub waitproc-create_win_process :
    (created : Bool) (flags : ℕ) (code : Option ℕ) (chance : ℕ) (stores : Bool)
    → let l = create_win_process created flags in
      let w = waitproc l.hprocess code chance stores l.handles in
      IsLaunched created (has_stdin flags) (has_stdout flags) (has_stderr flags) l
      × (w.handles ≡ 0)
      × (w.rv ≡ (created && is_some code))
      × (w.sts ≡ (if created && stores then some (to_int (pos (code_or chance code))) else none))
unfolding create_win_process launch waitproc
waitproc-create_win_process false flags code chance stores =
    (create_win_process-ends false flags, refl, refl, refl)
waitproc-create_win_process true flags none chance stores =
    (create_win_process-ends true flags, refl, refl, refl)
waitproc-create_win_process true flags (some code) chance stores =
    (create_win_process-ends true flags, refl, refl, refl)
