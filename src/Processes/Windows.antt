-- ===== src/Processes/Windows.antt =====
-- `pid_from_name` of src/common/pid_from_name.c for Windows.
use mwptools.Common.{
  ℕ, ◌≡◌, refl, subst, Bool, Option, none, some, List, [], ◌∷◌, ◌++◌, if◌then◌else◌, Bool-cases,
  inl, inr,
}
use mathlib.Core.List.{append_assoc, append-nil}
use mwptools.Common.Int.{ℤ, pos}
use mwptools.Common.Result.{Result, ok, ◌>>=◌}
use mwptools.Common.Strtol.{to_int}
use mwptools.Processes.Pids.{Pids, fresh, add, Holds, fresh-Holds, add-ok}

-- An entry of the snapshot: the file of the process, and its number.
pub record Process : Type 0 where
  pub file : List ℕ
  pub pid : ℕ

pub visit : (List ℕ → Bool) → Process → Pids → Result Pids
visit matches pe p = if matches pe.file then add (to_int (pos pe.pid)) p else ok p

pub visit_all : (List ℕ → Bool) → List Process → Pids → Result Pids
visit_all matches [] p = ok p
visit_all matches (pe ∷ pes) p = visit matches pe p >>= λ p'. visit_all matches pes p'

-- The processes of the snapshot, in order, or `none` where none can be made.
unfoldable pub pid_from_name : (List ℕ → Bool) → Option (List Process) → Result Pids
unfolding visit_all visit
pid_from_name matches none = ok fresh
pid_from_name matches (some pes) = visit_all matches pes fresh

-- The numbers of the processes whose file matches.
abbrev pub found : (List ℕ → Bool) → List Process → List ℤ
found matches [] = []
found matches (pe ∷ pes) =
    (if matches pe.file then to_int (pos pe.pid) ∷ [] else []) ++ found matches pes

visit-Holds :
    (matches : List ℕ → Bool) (pe : Process) {pids : List ℤ} {p : Pids}
    → Holds pids p
    → (p' : Pids) × (visit matches pe p ≡ ok p')
      × Holds (pids ++ (if matches pe.file then to_int (pos pe.pid) ∷ [] else [])) p'
unfolding visit
visit-Holds matches pe {pids} {p} h = elim (Bool-cases (matches pe.file)) [
  | inl hit ↦ let (p', e, h') = add-ok (to_int (pos pe.pid)) h in (p', rw hit e, rw hit h')
  | inr miss ↦ (p, rw miss, rw (miss, append-nil) h)
]

visit_all-Holds :
    (matches : List ℕ → Bool) (pes : List Process) {pids : List ℤ} {p : Pids}
    → Holds pids p
    → (p' : Pids) × (visit_all matches pes p ≡ ok p') × Holds (pids ++ found matches pes) p'
unfolding visit_all
visit_all-Holds matches [] {pids} {p} h = (p, refl, rw append-nil h)
visit_all-Holds matches (pe ∷ pes) {pids} h =
    let (p1, e1, h1) = visit-Holds matches pe h in
    let (p2, e2, h2) = visit_all-Holds matches pes h1 in
    (p2, rw (e1, e2), subst (λ l. Holds l p2) (append_assoc pids _ (found matches pes)) h2)

abbrev pub listed : Option (List Process) → List Process
listed none = []
listed (some pes) = pes

-- The function runs without a fault on every snapshot and reports exactly the numbers of the
-- processes whose file matches, in order; with no snapshot it reports none.
pub pid_from_name_snapshot :
    (matches : List ℕ → Bool) (snapshot : Option (List Process))
    → (p : Pids) × (pid_from_name matches snapshot ≡ ok p)
      × Holds (found matches (listed snapshot)) p
unfolding pid_from_name
pid_from_name_snapshot matches none = (fresh, refl, fresh-Holds)
pid_from_name_snapshot matches (some pes) = visit_all-Holds matches pes fresh-Holds
