-- ===== src/Processes/Bsd/Retries.antt =====
-- How the loop of `pid_from_name` of src/common/pid_from_name.c ends on FreeBSD and macOS.
use mwptools.Common.{
  ℕ, ◌≡◌, refl, subst, Bool, true, false, not, ◌&&◌, some, List, [], ◌∷◌, ◌++◌, ◌==◌, all,
  if◌then◌else◌, arith, Bool-cases, inl, inr, &&-true,
}
use mathlib.Core.List.{append_assoc, append-nil}
use mwptools.Common.Int.{ℤ}
use mwptools.Common.Result.{ok}
use mwptools.Common.Strtol.{to_int}
use mwptools.Processes.Pids.{Pids, Holds, fresh-Holds, add-ok}
use mwptools.Processes.Bsd.{
  Process, Round, enomem, Loop, begin, round, repeat, discard, release, visit_all, Outcome,
  pid_from_name,
}

-- The round finds that the table grew since its size was asked for.
abbrev pub is_retry : Round → Bool
is_retry r = r.size_errno == 0 && (r.allocated && r.fetch_errno == enomem)

abbrev pub is_success : Round → Bool
is_success r = r.size_errno == 0 && (r.allocated && r.fetch_errno == 0)

abbrev pub found : (List ℕ → Bool) → List Process → List ℤ
found matches [] = []
found matches (k ∷ ks) = (if matches k.command then to_int k.pid ∷ [] else []) ++ found matches ks

visit_all-Holds :
    (matches : List ℕ → Bool) (ks : List Process) {pids : List ℤ} {p : Pids}
    → Holds pids p
    → (p' : Pids) × (visit_all matches ks p ≡ ok p') × Holds (pids ++ found matches ks) p'
unfolding visit_all
visit_all-Holds matches [] {pids} {p} h = (p, refl, rw append-nil h)
visit_all-Holds matches (k ∷ ks) {pids} h = elim (Bool-cases (matches k.command)) [
  | inl hit ↦
      let (p1, e1, h1) = add-ok (to_int k.pid) h in
      let (p2, e2, h2) = visit_all-Holds matches ks h1 in
      (
        p2,
        rw (hit, e1, e2),
        rw hit (subst (λ l. Holds l p2) (append_assoc pids _ (found matches ks)) h2),
      )
  | inr miss ↦ let (p1, e1, h1) = visit_all-Holds matches ks h in (p1, rw (miss, e1), rw miss h1)
]

-- Between two rounds nothing is allocated.
record IsIdle (l : Loop) : Type 0 where
  err : l.err ≡ 0
  done : l.done ≡ false
  kp : l.kp ≡ false
  balanced : l.allocs ≡ l.frees

round-IsIdle : (r : Round) (l : Loop) → is_retry r ≡ true → IsIdle l → IsIdle (round r l)
unfolding round
round-IsIdle r l h is = ground arith

-- The loop ends with a round that is no retry, and then one block is allocated or none.
round-end :
    (r : Round) (l : Loop)
    → is_retry r ≡ false
    → IsIdle l
    → let l' = round r l in
      let kept = discard l' in
      ((l'.err == 0 && not l'.done) ≡ false)
      × (kept.allocs ≡ (release kept).frees)
      × ((if kept.err == 0 then kept.table else []) ≡ (if is_success r then r.processes else []))
unfolding round
round-end r l h is = ground arith

repeat-end :
    (retries : List Round) (r : Round) (rest : List Round) (l : Loop)
    → all is_retry retries ≡ true
    → is_retry r ≡ false
    → IsIdle l
    → (idle : Loop) × IsIdle idle × (repeat (retries ++ r ∷ rest) l ≡ some (round r idle))
unfolding repeat
repeat-end [] r rest l h last is = (l, is, rw (round-end r l last is).0)
repeat-end (q ∷ retries) r rest l h last is =
    let (here, there) = &&-true (is_retry q) (all is_retry retries) h in
    let is' : IsIdle (round q l) = round-IsIdle q l here is in
    let (idle, is'', e) = repeat-end retries r rest (round q l) there last is' in
    (idle, is'', rw (is'.err, is'.done) e)

-- However often the table of processes grows between the call for its size and the call for its
-- contents, the loop ends with the first round that is no such retry. The function then runs
-- without a fault and frees every block that it allocated; it reports exactly the numbers of the
-- processes whose command matches, in order, if that round succeeded, and none if it failed.
pub pid_from_name_rounds :
    (matches : List ℕ → Bool) (retries : List Round) (r : Round) (rest : List Round)
    → all is_retry retries ≡ true
    → is_retry r ≡ false
    → (out : Outcome) × (pid_from_name matches (retries ++ r ∷ rest) ≡ some (ok out))
      × Holds (found matches (if is_success r then r.processes else [])) out.pids
      × (out.allocs ≡ out.frees)
unfolding pid_from_name
pid_from_name_rounds matches retries r rest h last =
    let start-IsIdle : IsIdle begin = record {
      err = refl;
      done = refl;
      kp = refl;
      balanced = refl;
    } in
    let (idle, is, e) = repeat-end retries r rest begin h last start-IsIdle in
    let (_, balanced, table) = round-end r idle last is in
    let kept = discard (round r idle) in
    let (p, f, holds) =
      visit_all-Holds matches (if is_success r then r.processes else []) fresh-Holds in
    (
      record { pids = p; allocs = kept.allocs; frees = (release kept).frees },
      rw (e, pid_from_name, table, f),
      holds,
      balanced,
    )
