-- ===== src/Processes/Linux.antt =====
-- `pid_from_name` of src/common/pid_from_name.c for Linux.
pub mod Paths
pub mod Found
use mwptools.Common.{
  ℕ, ◌+◌, Bool, true, false, not, Option, none, some, List, [], ◌∷◌, ◌++◌, length, take, set, ◌==◌,
  if◌then◌else◌,
}
use mwptools.Common.Int.{ℤ, pos, negsuc}
use mwptools.Common.CString.{codes}
use mwptools.Common.Result.{Result, ok, ◌>>=◌}
use mwptools.Common.Strtol.{strtol, to_int}
use mwptools.Common.Buffer.{overwrite, strcpy, text, line}
use mwptools.Processes.Pids.{Pids, fresh, add}

-- What the function asks the system: the user, the contents of the file of a path (`none` where it
-- cannot be opened; nothing where the read fails), and whether a command matches the pattern.
pub record System : Type 0 where
  pub uid : ℕ
  pub read_file : List ℕ → Option (List ℕ)
  pub matches : List ℕ → Bool

-- The array `buf` and what is found so far.
pub record Search : Type 0 where
  pub buf : List ℕ
  pub pids : Pids

abbrev pub is_nil : List ℕ → Bool
is_nil [] = true
is_nil (c ∷ s) = false

abbrev pub is_uid : ℕ → ℤ → Bool
is_uid uid (pos n) = n == uid
is_uid uid (negsuc n) = false

-- `read(fd, buf, sizeof(buf))`
abbrev pub read : List ℕ → List ℕ → List ℕ
read bytes buf = overwrite buf (take 4096 bytes)

-- The test on the map of users: whether the entry is passed over, and the array after it.
pub check_uid : System → Option (List ℕ) → List ℕ → Result (Bool × List ℕ)
check_uid sys none buf = ok (false, buf)
check_uid sys (some bytes) buf =
    let buf' = read bytes buf in
    if is_nil bytes
    then ok (false, buf')
    else (text buf' >>= λ s. ok (not (is_uid sys.uid (strtol 10 s).0), buf'))

-- The newline of the command becomes a NUL, and the command is matched.
pub check_command : System → ℤ → Option (List ℕ) → Search → Result Search
check_command sys pid none f = ok f
check_command sys pid (some bytes) f =
    let buf' = read bytes f.buf in
    if is_nil bytes then ok (record f { buf = buf' }) else (do
      command ← line buf'
      let f' : Search = record f { buf = set buf' (length command) 0 }
      (if sys.matches command
          then (add (to_int pid) f.pids >>= λ pids. ok (record f' { pids = pids }))
          else ok f'))

-- A numeric entry: the three parts of the path, the test of the user, and the command. The second
-- name is copied to where the entry's name ended.
pub look_at : System → List ℕ → ℤ → Search → Result Search
unfolding check_uid check_command
look_at sys name pid f = do
  b1 ← strcpy 0 (codes "/proc/") f.buf
  b2 ← strcpy 6 name b1
  let end : ℕ = 6 + length name
  b3 ← strcpy end (codes "uid_map") b2
  uid_map ← text b3
  (skip, b4) ← check_uid sys (sys.read_file uid_map) b3
  if skip then ok (record f { buf = b4 }) else (do
    b5 ← strcpy end (codes "/comm") b4
    comm ← text b5
    check_command sys pid (sys.read_file comm) (record f { buf = b5 }))

-- One entry of the directory.
pub visit : System → List ℕ → Search → Result Search
unfolding look_at
visit sys name f =
    let (pid, rest) = strtol 10 name in if is_nil rest then look_at sys name pid f else ok f

pub visit_all : System → List (List ℕ) → Search → Result Search
visit_all sys [] f = ok f
visit_all sys (name ∷ names) f = visit sys name f >>= λ f'. visit_all sys names f'

-- The entries of /proc, or `none` where it cannot be opened; `junk` is what `buf` holds at first.
-- The result is `none` for NULL.
unfoldable pub pid_from_name : System → List ℕ → Option (List (List ℕ)) → Result (Option Pids)
unfolding visit_all visit
pid_from_name sys junk none = ok none
pid_from_name sys junk (some names) =
    visit_all sys names (record { buf = junk; pids = fresh }) >>= λ f. ok (some f.pids)
