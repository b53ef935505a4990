-- ===== src/Processes/Pids.antt =====
-- The array `pids` of src/common/pid_from_name.c with its counters `nres` and `nalloc`.
use mwptools.Common.{[]}
use mwptools.Common.Int.{ℤ, pos}
use mwptools.Common.Growing.{Growing, calloc, calloc-Holds}
pub use mwptools.Common.Growing.{reported, Holds, add-ok}
unfoldable pub use mwptools.Common.Growing.{add}

abbrev pub Pids : Type 0
Pids = Growing ℤ

abbrev pub fresh : Pids
fresh = calloc (pos 0)

pub fresh-Holds : Holds [] fresh
fresh-Holds = calloc-Holds (pos 0)
