-- ===== src/Processes/Bsd.antt =====
-- `pid_from_name` of src/common/pid_from_name.c for FreeBSD and macOS. What the two calls of
-- `sysctl` and `malloc` give in each round of the loop is a list of rounds.
pub mod Retries
use mwptools.Common.{
  ℕ, zero, suc, ◌+◌, ◌≡◌, refl, sym, subst, ap, ◌∙◌, Bool, true, false, not, ◌&&◌, Option, none,
  some, List, [], ◌∷◌, ◌++◌, ◌==◌, all, length, if◌then◌else◌, arith, Bool-cases, inl, inr,
}
use mathlib.Core.List.{append_assoc, append-nil}
use mwptools.Common.Int.{ℤ}
use mwptools.Common.Result.{Result, ok, ◌>>=◌}
use mwptools.Common.Strtol.{to_int}
use mwptools.Processes.Pids.{Pids, fresh, add, Holds, fresh-Holds, add-ok}

pub record Process : Type 0 where
  pub command : List ℕ
  pub pid : ℤ

-- The error numbers of the two calls, 0 for success; whether `malloc` succeeds; and the processes
-- that the second call writes.
pub record Round : Type 0 where
  pub size_errno : ℕ
  pub allocated : Bool
  pub fetch_errno : ℕ
  pub processes : List Process

abbrev pub enomem : ℕ
enomem = 12

-- `err`, `done`, whether `kp` is not NULL, the processes in it, and how many blocks were allocated
-- and freed.
pub record Loop : Type 0 where
  pub err : ℕ
  pub done : Bool
  pub kp : Bool
  pub table : List Process
  pub allocs : ℕ
  pub frees : ℕ

abbrev pub begin : Loop
begin = record { err = 0; done = false; kp = false; table = []; allocs = 0; frees = 0 }

-- `kp = malloc(length); if (kp == NULL) err = ENOMEM;`
abbrev pub allocate : Round → Loop → Loop
allocate r l =
    if r.allocated
    then record l { kp = true; allocs = l.allocs + 1 }
    else record l { kp = false; err = enomem }

abbrev pub fetch : Round → Loop → Loop
fetch r l =
    if r.fetch_errno == 0
    then record l { err = 0; done = true; table = r.processes }
    else if r.fetch_errno == enomem
    then record l { err = 0; kp = false; frees = l.frees + 1 }
    else record l { err = r.fetch_errno }

-- The body of the loop.
pub round : Round → Loop → Loop
round r l =
    let sized = record l { err = r.size_errno } in
    let ready = if sized.err == 0 then allocate r sized else sized in
    if ready.err == 0 then fetch r ready else ready

-- `do ... while (err == 0 && !done)`; `none` where the rounds run out first.
pub repeat : List Round → Loop → Option Loop
unfolding round
repeat [] l = none
repeat (r ∷ rs) l =
    let l' = round r l in
    let rest = repeat rs l' in if l'.err == 0 && not l'.done then rest else some l'

-- `if (err != 0 && kp != NULL) { free(kp); kp = NULL; }`
abbrev pub discard : Loop → Loop
discard l = if not (l.err == 0) && l.kp then record l { kp = false; frees = l.frees + 1 } else l

-- `free(kp)` at the end; of NULL it does nothing.
abbrev pub release : Loop → Loop
release l = if l.kp then record l { frees = l.frees + 1 } else l

pub visit_all : (List ℕ → Bool) → List Process → Pids → Result Pids
visit_all matches [] p = ok p
visit_all matches (k ∷ ks) p =
    if matches k.command
    then (add (to_int k.pid) p >>= λ p'. visit_all matches ks p')
    else visit_all matches ks p

pub record Outcome : Type 0 where
  pub pids : Pids
  pub allocs : ℕ
  pub frees : ℕ

-- What follows the loop. `proc_count` is 0 after an error.
pub finish : (List ℕ → Bool) → Loop → Result Outcome
unfolding visit_all
finish matches l =
    let kept = discard l in
    visit_all matches (if kept.err == 0 then kept.table else []) fresh >>= λ p.
    ok (record { pids = p; allocs = kept.allocs; frees = (release kept).frees })

unfoldable pub pid_from_name : (List ℕ → Bool) → List Round → Option (Result Outcome)
unfolding repeat finish
pid_from_name matches rs = elim (repeat rs begin) [ none ↦ none | some l ↦ some (finish matches l) ]
