-- ===== src/Suspend/Exports.antt =====
-- The functions of src/common/win_suspend_resume.c.
use mwptools.Common.{
  ℕ, ◌+◌, ◌-◌, Bool, true, false, ◌&&◌, Option, none, some, List, [], ◌∷◌, if◌then◌else◌,
}
use mwptools.Common.Int.{ℤ, pos, negsuc}
use mwptools.Common.Strtol.{to_signed32}

-- The system: whether the module NTDLL is found, which of the two functions it has, what each of them
-- returns for a process, and which processes can be opened.
pub record System : Type 0 where
  pub ntdll : Bool
  pub has_suspend : Bool
  pub has_resume : Bool
  pub suspend_status : ℕ → ℤ
  pub resume_status : ℕ → ℤ
  pub opens : ℕ → Bool

-- A call of a function of NTDLL, with the process.
pub data Call : Type 0 where
  suspended resumed : ℕ → Call

-- Whether `fNtSuspendProcess` and `fNtResumeProcess` are set; the handles that are open; and the calls
-- made so far, the latest first.
pub record State : Type 0 where
  pub f_suspend : Bool
  pub f_resume : Bool
  pub handles : ℕ
  pub calls : List Call

abbrev pub start : State
start = record { f_suspend = false; f_resume = false; handles = 0; calls = [] }

unfoldable pub initialize_exports : System → State → Bool × State
initialize_exports sys s =
    if sys.ntdll
    then (
      sys.has_suspend && sys.has_resume,
      record s { f_suspend = sys.has_suspend; f_resume = sys.has_resume },
    )
    else (false, s)

-- `STATUS_INSUFFICIENT_RESOURCES` as an `NTSTATUS`.
abbrev pub insufficient_resources : ℤ
insufficient_resources = to_signed32 3221225626

abbrev pub nt_success : ℤ → Bool
nt_success (pos n) = true
nt_success (negsuc n) = false

unfoldable pub nt_suspend_process : System → ℕ → State → ℤ × State
unfolding initialize_exports
nt_suspend_process sys pid s =
    let s1 = if s.f_suspend then s else (initialize_exports sys s).1 in
    if s1.f_suspend
    then (sys.suspend_status pid, record s1 { calls = suspended pid ∷ s1.calls })
    else (insufficient_resources, s1)

-- `_SuspendProcess`; a handle that is not NULL is the process that it stands for.
unfoldable pub suspend_process : System → Option ℕ → State → Bool × State
unfolding nt_suspend_process
suspend_process sys none s = (false, s)
suspend_process sys (some pid) s =
    let (status, s') = nt_suspend_process sys pid s in (nt_success status, s')

unfoldable pub winsuspend : System → ℕ → State → State
unfolding suspend_process
winsuspend sys pid s =
    if sys.opens pid
    then (let s1 = record s { handles = s.handles + 1 } in
        let s2 = (suspend_process sys (some pid) s1).1 in record s2 { handles = s2.handles - 1 })
    else s

unfoldable pub nt_resume_process : System → ℕ → State → ℤ × State
unfolding initialize_exports
nt_resume_process sys pid s =
    let s1 = if s.f_resume then s else (initialize_exports sys s).1 in
    if s1.f_resume
    then (sys.resume_status pid, record s1 { calls = resumed pid ∷ s1.calls })
    else (insufficient_resources, s1)

-- `_ResumeProcess`
unfoldable pub resume_process : System → Option ℕ → State → Bool × State
unfolding nt_resume_process
resume_process sys none s = (false, s)
resume_process sys (some pid) s =
    let (status, s') = nt_resume_process sys pid s in (nt_success status, s')

unfoldable pub winresume : System → ℕ → State → State
unfolding resume_process
winresume sys pid s =
    if sys.opens pid
    then (let s1 = record s { handles = s.handles + 1 } in
        let s2 = (resume_process sys (some pid) s1).1 in record s2 { handles = s2.handles - 1 })
    else s

-- What the Vala code asks for.
pub data Request : Type 0 where
  suspend resume : ℕ → Request

unfoldable pub serve : System → Request → State → State
unfolding winsuspend winresume
serve sys (suspend pid) s = winsuspend sys pid s
serve sys (resume pid) s = winresume sys pid s

unfoldable pub serve_all : System → List Request → State → State
unfolding serve
serve_all sys [] s = s
serve_all sys (r ∷ rs) s = serve_all sys rs (serve sys r s)
