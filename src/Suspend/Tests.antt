-- ===== src/Suspend/Tests.antt =====
-- Sessions of src/common/win_suspend_resume.c and src/clib/winidle.c.
use mwptools.Common.{◌≡◌, true, false, some, List, [], ◌∷◌, ◌==◌, if◌then◌else◌}
use mwptools.Common.Int.{pos, negsuc}
use mwptools.Suspend.Exports.{
  System, start, Request, suspend, resume, serve_all, suspend_process, resume_process,
}
use mwptools.Suspend.Lookup.{all_wanted, serve_all-wanted}
use mwptools.Suspend.Idle.{Idle, nest, nest-restored}

-- The process 4 cannot be opened, and the process 12 not be resumed.
abbrev sys : System
sys = record {
  ntdll = true;
  has_suspend = true;
  has_resume = true;
  suspend_status = λ pid. pos 0;
  resume_status = λ pid. if pid == 12 then negsuc 1073741818 else pos 0;
  opens = λ pid. if pid == 4 then false else true;
}

abbrev session : List Request
session = suspend 4 ∷ suspend 12 ∷ resume 12 ∷ resume 8 ∷ []

serve_all-wanted_example :
    ((serve_all sys session start).calls ≡ all_wanted sys session [])
    × ((serve_all sys session start).handles ≡ 0)
    × ((suspend_process sys (some 12) (serve_all sys session start)).0 ≡ true)
    × ((resume_process sys (some 12) (serve_all sys session start)).0 ≡ false)
serve_all-wanted_example = serve_all-wanted sys session (some 12)

abbrev idle : Idle
idle = record { timeout = 600; execution = 2147483648; previous = 0 }

nested_twice : ((nest 2 idle).execution ≡ 2147483648) × ((nest 2 idle).timeout ≡ 0)
nested_twice = nest-restored 1 idle
