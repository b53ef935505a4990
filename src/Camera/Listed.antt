-- ===== src/Camera/Listed.antt =====
-- Which cameras `get_cameras` of src/wcam/wcam.cpp lists, and what it leaves behind.
use mwptools.Common.{◌+◌, ◌*◌, ◌≡◌, some, List, [], ◌∷◌, ◌++◌, length, All, if◌then◌else◌}
use mwptools.Common.Int.{pos}
use mwptools.Common.Result.{ok}
use mwptools.Common.Growing.{Growing, Holds}
use mwptools.Camera.Enumerate.{Camera, Moniker, System, State, Cameras, cam_dev_copy}
use mwptools.Camera.Devices.{
  is_listed, is_lost, camera, cameras, count_lost, outcome, last_outcome, destroy_all,
}

-- What a round of the loop leaves.
record Visited (sys : System) (cams : List Camera) (m : Moniker) (s s' : State) : Type 0 where
  holds : Holds (cams ++ (if is_listed m then camera sys m ∷ [] else [])) s'.cams
  outcome : s'.hr ≡ outcome m
  held : s'.held ≡ s.held
  texts : s'.texts ≡ s.texts + 2 * (if is_listed m then 1 else 0) + (if is_lost m then 1 else 0)

-- What `get_cameras` returns when the devices can be enumerated.
pub record Listed (sys : System) (c : Cameras) (cams : Growing Camera) : Type 0 where
  pub array : c.cams ≡ some cams
  pub holds : Holds (cameras sys sys.monikers) cams
  pub nlen : c.nlen ≡ length (cameras sys sys.monikers)
  pub res : c.res ≡ some (last_outcome (pos 0) sys.monikers)
  pub texts : c.texts ≡ 2 * c.nlen + count_lost sys.monikers
  pub destroyed : destroy_all (cameras sys sys.monikers) c.texts ≡ count_lost sys.monikers
  pub copied : All (λ cam. cam_dev_copy cam ≡ ok cam) (cameras sys sys.monikers)
