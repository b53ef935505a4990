-- ===== src/Launch/Tests.antt =====
-- Processes of src/common/winproc.c, and the theorems about them.
use mwptools.Common.{◌≡◌, refl, true, false, none, some, [], ◌∷◌}
use mwptools.Common.Int.{negsuc}
use mwptools.Launch.Create.{create_win_process}
use mwptools.Launch.Ends.{IsLaunched}
use mwptools.Launch.Wait.{waitproc, proc_kill, waitproc-create_win_process}

-- Both a pipe for stdout and the wait, so the process is detached.
stdout_and_wait : (create_win_process true 10).detached ≡ true
unfolding create_win_process
stdout_and_wait = refl

-- A process with stdin and stdout whose code cannot be asked for.
waitproc-create_win_process_example :
    let l = create_win_process true 3 in
    let w = waitproc l.hprocess none 3405691582 true l.handles in
    IsLaunched true true true false l
    × (w.handles ≡ 0)
    × (w.rv ≡ false)
    × (w.sts ≡ some (negsuc 889275713))
waitproc-create_win_process_example = waitproc-create_win_process true 3 none 3405691582 true

kill_runs :
    proc_kill true 42 (record { terminated = []; handles = 0 })
    ≡ record { terminated = (42, 1) ∷ []; handles = 0 }
unfolding proc_kill
kill_runs = refl
