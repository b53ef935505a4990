-- ===== src/Processes/Tests.antt =====
-- Searches of src/common/pid_from_name.c, and the theorems about them at concrete systems.
use mwptools.Common.{
  ℕ, ◌≡◌, refl, true, Option, none, some, List, [], ◌∷◌, ◌++◌, All, length, replicate, drop, ◌==◌,
  if◌then◌else◌, arith,
}
use mwptools.Common.Int.{pos}
use mwptools.Common.CString.{codes, str_equal}
use mwptools.Common.Result.{ok}
use mwptools.Processes.Pids.{Pids, reported, Holds}
use mwptools.Processes.Linux
use mwptools.Processes.Linux.{System}
use mwptools.Processes.Linux.Paths.{has_no_slash, IsEntry}
use mwptools.Processes.Linux.Found.{
  IsProcfs, found, as_user, pid_from_name-found, pid_from_name-any_user,
}
use mwptools.Processes.Windows
use mwptools.Processes.Windows.{pid_from_name_snapshot}
use mwptools.Processes.Bsd
use mwptools.Processes.Bsd.{Round, Outcome}
use mwptools.Processes.Bsd.Retries.{pid_from_name_rounds}

-- What is behind the first slash, if there is one.
abbrev behind_slash : List ℕ → Option (List ℕ)
behind_slash [] = none
behind_slash (c ∷ s) = let rest = behind_slash s in if c == b'/' then some s else rest

behind_slash-append :
    (s t : List ℕ) → has_no_slash s ≡ true → behind_slash (s ++ t) ≡ behind_slash t
behind_slash-append [] t h = refl
behind_slash-append (c ∷ s) t h = ground (arith, behind_slash-append s t)

-- The files of each directory in /proc: the command mwp, and the map of another user.
abbrev file_of : Option (List ℕ) → Option (List ℕ)
file_of none = none
file_of (some file) =
    if str_equal file (codes "comm")
    then some (codes "mwp" ++ b'\n' ∷ [])
    else if str_equal file (codes "uid_map")
    then some (codes "0 7 1" ++ b'\n' ∷ [])
    else none

abbrev all_mwp : System
all_mwp = record {
  uid = 1000;
  read_file = λ path. file_of (behind_slash (drop 6 path));
  matches = str_equal (codes "mwp");
}

abbrev mwp : List ℕ → Option (List ℕ)
mwp name = some (codes "mwp")

all_mwp-IsProcfs : IsProcfs all_mwp mwp
all_mwp-IsProcfs = record {
  none_beside = λ name e n. rw (behind_slash-append name (codes "uid_map") e.no_slash);
  in_comm = λ name e n. rw (behind_slash-append name (codes "/comm") e.no_slash);
  commands = λ name e n. (refl, omega arith);
}

abbrev entries : List (List ℕ)
entries = codes "self" ∷ codes "1" ∷ codes "4711" ∷ codes "42x" ∷ []

-- Each process has a map of users.
mapped : all_mwp.read_file (codes "/proc/1/uid_map") ≡ some (codes "0 7 1" ++ b'\n' ∷ [])
mapped = refl

entries-IsEntry : All IsEntry entries
entries-IsEntry = (
  record { short = omega arith; no_nul = refl; no_slash = refl },
  (
    record { short = omega arith; no_nul = refl; no_slash = refl },
    (
      record { short = omega arith; no_nul = refl; no_slash = refl },
      (record { short = omega arith; no_nul = refl; no_slash = refl }, tt),
    ),
  ),
)

two_found : found all_mwp mwp entries ≡ pos 1 ∷ pos 4711 ∷ []
two_found = refl

abbrev junk : List ℕ
junk = replicate 4096 7

length-junk : length junk ≡ 4096
length-junk = refl

pid_from_name-found_example :
    (p : Pids) × (Linux.pid_from_name all_mwp junk (some entries) ≡ ok (some p))
    × Holds (pos 1 ∷ pos 4711 ∷ []) p
pid_from_name-found_example =
    pid_from_name-found all_mwp mwp all_mwp-IsProcfs junk entries length-junk entries-IsEntry

pid_from_name-any_user_example :
    (p q : Pids) × (Linux.pid_from_name all_mwp junk (some entries) ≡ ok (some p))
    × (Linux.pid_from_name (as_user 0 all_mwp) junk (some entries) ≡ ok (some q))
    × (reported p ≡ reported q)
pid_from_name-any_user_example =
    pid_from_name-any_user all_mwp mwp 0 junk entries all_mwp-IsProcfs length-junk entries-IsEntry

abbrev programs : List Windows.Process
programs =
    record { file = codes "mwp.exe"; pid = 12 } ∷ record { file = codes "cmd.exe"; pid = 16 } ∷ []

pid_from_name_snapshot_example :
    (p : Pids) × (Windows.pid_from_name (str_equal (codes "mwp.exe")) (some programs) ≡ ok p)
    × Holds (pos 12 ∷ []) p
pid_from_name_snapshot_example =
    pid_from_name_snapshot (str_equal (codes "mwp.exe")) (some programs)

abbrev grown : Round
grown = record { size_errno = 0; allocated = true; fetch_errno = 12; processes = [] }

abbrev fetched : Round
fetched = record {
  size_errno = 0;
  allocated = true;
  fetch_errno = 0;
  processes = record { command = codes "mwp"; pid = pos 99 } ∷ [];
}

pid_from_name_rounds_example :
    (out : Outcome) × (Bsd.pid_from_name (str_equal (codes "mwp")) (grown ∷ grown ∷ fetched ∷ [])
      ≡ some (ok out))
    × Holds (pos 99 ∷ []) out.pids
    × (out.allocs ≡ out.frees)
pid_from_name_rounds_example =
    pid_from_name_rounds (str_equal (codes "mwp")) (grown ∷ grown ∷ []) fetched [] refl refl
