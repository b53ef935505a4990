-- ===== src/Camera/Enumerate.antt =====
-- `get_cameras`, `cam_dev_copy` and `cam_dev_destroy` of src/wcam/wcam.cpp.
use mwptools.Common.{
  ℕ, ◌+◌, ◌-◌, Bool, true, false, not, ◌||◌, Option, none, some, List, [], ◌∷◌, length, ◌==◌,
  if◌then◌else◌,
}
use mwptools.Common.Int.{ℤ, pos, negsuc}
use mwptools.Common.Result.{Result, ok, fault, null_pointer, ◌>>=◌}
use mwptools.Common.Buffer.{store, text}
use mwptools.Common.Growing.{Growing, calloc, add}

-- A result code of the system; the negative ones are failures.
abbrev pub failed : ℤ → Bool
failed (pos n) = false
failed (negsuc n) = true

-- `cam_dev_t`; a NULL pointer is `none`.
pub record Camera : Type 0 where
  pub dspname : Option (List ℕ)
  pub devname : Option (List ℕ)

abbrev pub null_camera : Camera
null_camera = record { dspname = none; devname = none }

-- A device: the code of `BindToStorage`, and the code and the string of each property that is read.
pub record Moniker : Type 0 where
  pub binds : ℤ
  pub description : ℤ × List ℕ
  pub friendly_name : ℤ × List ℕ
  pub device_path : ℤ × List ℕ

-- The system: the codes of `CoInitializeEx`, `CoCreateInstance` and `CreateClassEnumerator`, the
-- devices, what `WideCharToMultiByte` makes of a string, and the bytes that `malloc` returns.
pub record System : Type 0 where
  pub initialize : ℤ
  pub create : ℤ
  pub enumerate : ℤ
  pub monikers : List Moniker
  pub utf8 : List ℕ → List ℕ
  pub malloc : ℕ → List ℕ

-- `pcams` with `ni` and `nalloc`, `hr`, the references to objects of the system that are held, and the
-- texts that `to_utf8` has returned and that are not freed.
pub record State : Type 0 where
  pub cams : Growing Camera
  pub hr : ℤ
  pub held : ℕ
  pub texts : ℕ

abbrev pub hold : State → State
hold s = record s { held = s.held + 1 }

abbrev pub release : State → State
release s = record s { held = s.held - 1 }

-- The characters that `wcslen` counts.
abbrev pub wide : List ℕ → List ℕ
wide [] = []
wide (c ∷ s) = let rest = wide s in if c == 0 then [] else c ∷ rest

unfoldable pub to_utf8 : System → List ℕ → Result (List ℕ)
to_utf8 sys wchars =
    let bytes = sys.utf8 (wide wchars) in
    store 0 bytes (sys.malloc (length bytes + 1)) >>= store (length bytes) (0 ∷ []) >>= text

-- The description, or the friendly name where there is none.
abbrev pub name_of : Moniker → ℤ × List ℕ
name_of m = if failed m.description.0 then m.friendly_name else m.description

-- What follows a name that could be read.
abbrev pub with_name : System → Moniker → List ℕ → State → Result State
with_name sys m fname s =
    let s1 = record s { hr = m.device_path.0 } in
    if failed m.device_path.0
    then ok s1
    else (to_utf8 sys m.device_path.1 >>= λ dname.
        add (record { dspname = some fname; devname = some dname }) s1.cams >>= λ cams.
        ok (record s1 { cams = cams; texts = s1.texts + 1 }))

-- What is done with the properties of a device.
abbrev pub with_bag : System → Moniker → State → Result State
with_bag sys m s =
    let s1 = record s { hr = (name_of m).0 } in
    if failed (name_of m).0
    then ok s1
    else (to_utf8 sys (name_of m).1 >>= λ fname.
        with_name sys m fname (record s1 { texts = s1.texts + 1 }))

unfoldable pub visit : System → Moniker → State → Result State
visit sys m s =
    let s1 = record (hold s) { hr = m.binds } in
    if failed m.binds
    then ok (release s1)
    else (with_bag sys m (hold s1) >>= λ s2. ok (release (release s2)))

unfoldable pub visit_all : System → List Moniker → State → Result State
visit_all sys [] s = ok s
visit_all sys (m ∷ ms) s = visit sys m s >>= visit_all sys ms

unfoldable pub display_device_information : System → ℕ → Result State
display_device_information sys held =
    visit_all sys sys.monikers
      (record { cams = calloc null_camera; hr = pos 0; held = held; texts = 0 })

-- `VFW_E_NOT_FOUND`, 0x80040216 as a result code.
abbrev pub vfw_e_not_found : ℤ
vfw_e_not_found = negsuc 2147220969

abbrev pub is_false : ℤ → Bool
is_false (pos n) = n == 1
is_false (negsuc n) = false

-- Whether `CreateClassEnumerator` makes an enumerator: not for an empty category, nor when it fails.
abbrev pub has_enumerator : System → Bool
has_enumerator sys = not (failed sys.enumerate || is_false sys.enumerate)

-- The code of `EnumerateDevices`, and the references that are held behind it, of so many before:
-- `pDevEnum` until it is released, and the enumerator.
abbrev pub enumerate_devices : System → ℕ → ℤ × ℕ
enumerate_devices sys held =
    if failed sys.create
    then (sys.create, held)
    else (let created = held + 1 in
        let enumerated = if has_enumerator sys then created + 1 else created in
        (if is_false sys.enumerate then vfw_e_not_found else sys.enumerate, enumerated - 1))

-- The result of `get_cameras`: the array, if any, `*res` where it is written, `*nlen`; and what stays
-- behind: references, texts, and how often the library is left initialised.
pub record Cameras : Type 0 where
  pub cams : Option (Growing Camera)
  pub res : Option ℤ
  pub nlen : ℕ
  pub held : ℕ
  pub texts : ℕ
  pub initialized : ℕ

abbrev pub no_cameras : Option ℤ → ℕ → Cameras
no_cameras res initialized = record {
  cams = none;
  res = res;
  nlen = 0;
  held = 0;
  texts = 0;
  initialized = initialized;
}

-- What comes between `CoInitializeEx` and `CoUninitialize`.
unfoldable pub list_devices : System → Result Cameras
unfolding display_device_information
list_devices sys =
    let (hr, held) = enumerate_devices sys 0 in
    if failed hr
    then ok (record (no_cameras none 1) { held = held })
    else (display_device_information sys held >>= λ s. ok (record {
      cams = some s.cams;
      res = some s.hr;
      nlen = s.cams.nres;
      held = s.held - 1;
      texts = s.texts;
      initialized = 1;
    }))

unfoldable pub get_cameras : System → Result Cameras
unfolding list_devices
get_cameras sys =
    if failed sys.initialize
    then ok (no_cameras (some sys.initialize) 0)
    else (list_devices sys >>= λ c. ok (record c { initialized = c.initialized - 1 }))

-- `strdup`, which follows a NULL pointer.
abbrev pub strdup : Option (List ℕ) → Result (Option (List ℕ))
strdup none = fault null_pointer
strdup (some s) = ok (some s)

unfoldable pub cam_dev_copy : Camera → Result Camera
cam_dev_copy s = strdup s.dspname >>= λ dspname.
    strdup s.devname >>= λ devname. ok (record { dspname = dspname; devname = devname })

-- `free(c->dspname)` and `free(c->devname)`, on the number of texts; `free` of NULL does nothing.
abbrev pub free : Option (List ℕ) → ℕ → ℕ
free none texts = texts
free (some s) texts = texts - 1

unfoldable pub cam_dev_destroy : Option Camera → ℕ → ℕ
cam_dev_destroy none texts = texts
cam_dev_destroy (some c) texts = free c.devname (free c.dspname texts)
