-- ===== src/Suspend/Lookup.antt =====
-- That the functions of NTDLL, which src/common/win_suspend_resume.c looks up when they are first
-- needed, are called as if they had always been there.
use mwptools.Common.{
  ℕ, ◌≡◌, refl, ap, ◌∙◌, Bool, true, false, ◌&&◌, Option, none, some, List, [], ◌∷◌, ◌++◌,
  if◌then◌else◌, arith,
}
use mwptools.Common.Int.{ℤ}
use mwptools.Suspend.Exports.{
  System, Call, suspended, resumed, State, start, initialize_exports, nt_suspend_process,
  suspend_process, winsuspend, nt_resume_process, resume_process, winresume, Request, suspend,
  resume, serve, serve_all, nt_success,
}

-- The calls that a request asks for: none where the process cannot be opened, or NTDLL lacks the
-- function.
abbrev pub wanted : System → Request → List Call
wanted sys (suspend pid) =
    if sys.opens pid && (sys.ntdll && sys.has_suspend) then suspended pid ∷ [] else []
wanted sys (resume pid) =
    if sys.opens pid && (sys.ntdll && sys.has_resume) then resumed pid ∷ [] else []

-- The calls of a whole session, the latest first.
abbrev pub all_wanted : System → List Request → List Call → List Call
all_wanted sys [] calls = calls
all_wanted sys (r ∷ rs) calls = all_wanted sys rs (wanted sys r ++ calls)

-- A pointer that is set is that of a function that NTDLL has.
pub record IsLinked (sys : System) (s : State) : Type 0 where
  pub suspends : s.f_suspend ≡ true → (sys.ntdll && sys.has_suspend) ≡ true
  pub resumes : s.f_resume ≡ true → (sys.ntdll && sys.has_resume) ≡ true

record Served (sys : System) (r : Request) (s s' : State) : Type 0 where
  linked : IsLinked sys s'
  handles : s'.handles ≡ s.handles
  calls : s'.calls ≡ wanted sys r ++ s.calls

serve-Served :
    (sys : System) (r : Request) (s : State) → IsLinked sys s → Served sys r s (serve sys r s)
unfolding serve winsuspend winresume suspend_process resume_process nt_suspend_process
    nt_resume_process initialize_exports
serve-Served sys (suspend pid) s h = ground (arith, h.suspends, h.resumes)
serve-Served sys (resume pid) s h = ground (arith, h.suspends, h.resumes)

start-IsLinked : (sys : System) → IsLinked sys start
start-IsLinked sys = record { suspends = λ e. absurd (cc); resumes = λ e. absurd (cc) }

serve_all-IsLinked :
    (sys : System) (rs : List Request) (s : State)
    → IsLinked sys s
    → ((serve_all sys rs s).calls ≡ all_wanted sys rs s.calls)
      × ((serve_all sys rs s).handles ≡ s.handles)
      × IsLinked sys (serve_all sys rs s)
unfolding serve_all
serve_all-IsLinked sys [] s h = (refl, refl, h)
serve_all-IsLinked sys (r ∷ rs) s h =
    let one = serve-Served sys r s h in
    let (calls, handles, linked) = serve_all-IsLinked sys rs (serve sys r s) one.linked in
    (calls ∙ ap (all_wanted sys rs) one.calls, handles ∙ one.handles, linked)

-- The result for a handle, where NTDLL may have the function.
abbrev pub is_done : Bool → (ℕ → ℤ) → Option ℕ → Bool
is_done available status none = false
is_done available status (some pid) = available && nt_success (status pid)

result-is_done :
    (sys : System) (h : Option ℕ) (s : State)
    → IsLinked sys s
    → ((suspend_process sys h s).0 ≡ is_done (sys.ntdll && sys.has_suspend) sys.suspend_status h)
      × ((resume_process sys h s).0 ≡ is_done (sys.ntdll && sys.has_resume) sys.resume_status h)
unfolding suspend_process resume_process nt_suspend_process nt_resume_process initialize_exports
result-is_done sys none s linked = (refl, refl)
result-is_done sys (some pid) s linked =
    (ground (arith, linked.suspends), ground (arith, linked.resumes))

-- A program that suspends and resumes processes in any order makes exactly the calls of NTDLL that it
-- asks for, in that order, with the process it names: no call is missed because a function has not
-- been looked up yet, and none is made where the process cannot be opened or NTDLL lacks the function.
-- No handle stays open. Whatever came before, suspending or resuming a process is said to succeed
-- exactly when its handle is not NULL, NTDLL has the function, and its status is a success.
pub serve_all-wanted :
    (sys : System) (rs : List Request) (h : Option ℕ)
    → ((serve_all sys rs start).calls ≡ all_wanted sys rs [])
      × ((serve_all sys rs start).handles ≡ 0)
      × ((suspend_process sys h (serve_all sys rs start)).0
          ≡ is_done (sys.ntdll && sys.has_suspend) sys.suspend_status h)
      × ((resume_process sys h (serve_all sys rs start)).0
          ≡ is_done (sys.ntdll && sys.has_resume) sys.resume_status h)
serve_all-wanted sys rs h =
    let (calls, handles, linked) = serve_all-IsLinked sys rs start (start-IsLinked sys) in
    let (done, undone) = result-is_done sys h (serve_all sys rs start) linked in
    (calls, handles, done, undone)
