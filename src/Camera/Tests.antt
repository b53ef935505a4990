-- ===== src/Camera/Tests.antt =====
-- Cameras that src/wcam/wcam.cpp lists, and the theorem about them.
use mwptools.Common.{[], ◌∷◌, replicate}
use mwptools.Common.Int.{ℤ, pos, negsuc}
use mwptools.Common.CString.{codes}
use mwptools.Common.Growing.{Growing}
use mwptools.Camera.Enumerate.{Camera, Moniker, System}
use mwptools.Camera.Listed.{Listed}

abbrev e_fail : ℤ
e_fail = negsuc 2147467258

-- A camera with a friendly name only, and a device without a path.
abbrev webcam : Moniker
webcam = record {
  binds = pos 0;
  description = (e_fail, []);
  friendly_name = (pos 0, codes "Webcam");
  device_path = (pos 0, codes "\\usb");
}

abbrev pathless : Moniker
pathless = record {
  binds = pos 0;
  description = (pos 0, codes "OBS");
  friendly_name = (pos 0, codes "OBS");
  device_path = (e_fail, []);
}

-- The strings are ASCII.
abbrev sys : System
sys = record {
  initialize = pos 0;
  create = pos 0;
  enumerate = pos 0;
  monikers = webcam ∷ pathless ∷ [];
  utf8 = λ w. w;
  malloc = λ n. replicate n 0;
}
