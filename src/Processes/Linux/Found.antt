-- ===== src/Processes/Linux/Found.antt =====
-- What `pid_from_name` of src/common/pid_from_name.c finds on Linux.
use mwptools.Common.{
  ℕ, ◌<◌, ◌≡◌, refl, sym, subst, ap, ap₂, ◌∙◌, map, Bool, true, Option, none, some, List, [], ◌∷◌,
  ◌++◌, All, length, if◌then◌else◌, Bool-cases, inl, inr,
}
use mathlib.Core.List.{append_assoc, append-nil}
use mwptools.Common.Int.{ℤ}
use mwptools.Common.Result.{Result, ok}
use mwptools.Common.Strtol.{strtol}
use mwptools.Common.Buffer.{is_line}
use mwptools.Processes.Pids.{Pids, fresh, reported, Holds, fresh-Holds}
use mwptools.Processes.Linux.{
  System, Search, is_nil, check_command, visit, visit_all, pid_from_name,
}
use mwptools.Processes.Linux.Paths.{
  proc, uid_map, comm, IsEntry, report, check_command-ok, check_command-none, path-ok,
}

abbrev pub with_newline : Option (List ℕ) → Option (List ℕ)
with_newline none = none
with_newline (some s) = some (s ++ b'\n' ∷ [])

abbrev pub IsCommand : Option (List ℕ) → Type 0
IsCommand none = Unit
IsCommand (some s) = (is_line s ≡ true) × (length s < 64)

-- An entry that the function takes for a process: `strtol` reads all of its name.
abbrev pub is_numeric : List ℕ → Bool
is_numeric name = is_nil (strtol 10 name).1

-- The proc file system, at the entries whose names are numbers: the file `comm` of the directory has
-- the command, if any, followed by a newline, and /proc has no file `NUMBERuid_map`. The file
-- `uid_map` of the directory, and any other file, is left open.
pub record IsProcfs (sys : System) (command : List ℕ → Option (List ℕ)) : Type 0 where
  pub none_beside :
      (name : List ℕ)
      → IsEntry name
      → is_numeric name ≡ true
      → sys.read_file ((proc ++ name) ++ uid_map) ≡ none
  pub in_comm :
      (name : List ℕ)
      → IsEntry name
      → is_numeric name ≡ true
      → sys.read_file ((proc ++ name) ++ comm) ≡ with_newline (command name)
  pub commands : (name : List ℕ) → IsEntry name → is_numeric name ≡ true → IsCommand (command name)

-- The numbers that all entries add.
abbrev pub found : System → (List ℕ → Option (List ℕ)) → List (List ℕ) → List ℤ
found sys command [] = []
found sys command (name ∷ names) =
    (if is_numeric name then report sys (command name) (strtol 10 name).0 else [])
    ++ found sys command names

abbrev Outcome : List ℤ → Result Search → Type 0
Outcome pids r = (f : Search) × (r ≡ ok f) × (length f.buf ≡ 4096) × Holds pids f.pids

module _ (sys : System) (command : List ℕ → Option (List ℕ)) (procfs : IsProcfs sys command) where
  check-Outcome :
      (c : Option (List ℕ)) (pid : ℤ) (f : Search) {pids : List ℤ}
      → IsCommand c
      → length f.buf ≡ 4096
      → Holds pids f.pids
      → Outcome (pids ++ report sys c pid) (check_command sys pid (with_newline c) f)
  check-Outcome none pid f {pids} is size h =
      (f, check_command-none sys pid f, size, rw append-nil h)
  check-Outcome (some s) pid f is size h = check_command-ok sys pid s f is.0 is.1 size h

  abbrev added : List ℕ → List ℤ
  added name = if is_numeric name then report sys (command name) (strtol 10 name).0 else []

  visit-Outcome :
      (name : List ℕ) (f : Search) {pids : List ℤ}
      → IsEntry name
      → length f.buf ≡ 4096
      → Holds pids f.pids
      → Outcome (pids ++ added name) (visit sys name f)
  unfolding visit
  visit-Outcome name f {pids} entry size h = elim (Bool-cases (is_numeric name)) [
    | inr other ↦ (f, rw other, size, rw (other, append-nil) h)
    | inl numeric ↦
        let pid : ℤ = (strtol 10 name).0 in
        let (buf, size', e) =
          path-ok sys name pid f entry size (procfs.none_beside name entry numeric) in
        let (f', e', size'', h') =
          check-Outcome (command name) pid (record f { buf = buf })
            (procfs.commands name entry numeric) size' h in
        (f', rw (numeric, e, procfs.in_comm name entry numeric) e', size'', rw numeric h')
  ]

  visit_all-Outcome :
      (names : List (List ℕ)) (f : Search) {pids : List ℤ}
      → All IsEntry names
      → length f.buf ≡ 4096
      → Holds pids f.pids
      → Outcome (pids ++ found sys command names) (visit_all sys names f)
  unfolding visit_all
  visit_all-Outcome [] f {pids} entries size h = (f, refl, size, rw append-nil h)
  visit_all-Outcome (name ∷ names) f {pids} entries size h =
      let (f1, e1, size1, h1) = visit-Outcome name f entries.0 size h in
      let (f2, e2, size2, h2) = visit_all-Outcome names f1 entries.1 size1 h1 in
      (
        f2,
        rw (e1, e2),
        size2,
        subst (λ l. Holds l f2.pids) (append_assoc pids (added name) (found sys command names)) h2,
      )

  -- On a proc file system (at every numeric entry of /proc, the file `comm` of its directory, if there
  -- is one, holds a command of fewer than 64 bytes without a newline or a NUL, and a newline, and /proc
  -- has no file of that number and `uid_map` in one name), whatever entries /proc has, with names of at
  -- most 255 bytes that are neither NUL nor a slash, whatever the array of 4096 bytes held at first and
  -- whoever the user is, the function runs without a fault and reports exactly the numbers of the
  -- numeric entries whose command matches, in the order of the directory. Its array has as many cells
  -- as it counts, and every number was written inside it.
  pub pid_from_name-found :
      (junk : List ℕ) (names : List (List ℕ))
      → length junk ≡ 4096
      → All IsEntry names
      → (p : Pids) × (pid_from_name sys junk (some names) ≡ ok (some p))
        × Holds (found sys command names) p
  unfolding pid_from_name
  pid_from_name-found junk names size entries =
      let (f, e, _, h) =
        visit_all-Outcome names (record { buf = junk; pids = fresh }) entries size fresh-Holds in
      (f.pids, rw e, h)

abbrev pub as_user : ℕ → System → System
as_user uid sys = record sys { uid = uid }

found-as_user :
    (sys : System) (command : List ℕ → Option (List ℕ)) (uid : ℕ) (names : List (List ℕ))
    → found (as_user uid sys) command names ≡ found sys command names
found-as_user sys command uid [] = refl
found-as_user sys command uid (name ∷ names) =
    ap₂ (λ xs ys. (if is_numeric name then xs else []) ++ ys)
      (report-as_user (command name) (strtol 10 name).0) (found-as_user sys command uid names)
  where
    report-as_user :
        (c : Option (List ℕ)) (pid : ℤ) → report (as_user uid sys) c pid ≡ report sys c pid
    report-as_user none pid = refl
    report-as_user (some s) pid = refl

-- The test of the user never takes effect on such a proc file system and such entries, whatever the maps
-- of users in the directories of the processes hold: two users get the same numbers. The path of the
-- map lacks its slash, and /proc has no file of a number and `uid_map` in one name.
pub pid_from_name-any_user :
    (sys : System) (command : List ℕ → Option (List ℕ)) (uid : ℕ) (junk : List ℕ)
    (names : List (List ℕ))
    → IsProcfs sys command
    → length junk ≡ 4096
    → All IsEntry names
    → (p q : Pids) × (pid_from_name sys junk (some names) ≡ ok (some p))
      × (pid_from_name (as_user uid sys) junk (some names) ≡ ok (some q))
      × (reported p ≡ reported q)
pid_from_name-any_user sys command uid junk names procfs size entries =
    let (p, e, h) = pid_from_name-found sys command procfs junk names size entries in
    let same : IsProcfs (as_user uid sys) command = record {
      none_beside = procfs.none_beside;
      in_comm = procfs.in_comm;
      commands = procfs.commands;
    } in
    let (q, f, k) = pid_from_name-found (as_user uid sys) command same junk names size entries in
    (
      p,
      q,
      e,
      f,
      h.contents ∙ ap (map some) (sym (found-as_user sys command uid names)) ∙ sym k.contents,
    )
