-- ===== src/Camera/Devices.antt =====
-- Which devices `get_cameras` of src/wcam/wcam.cpp lists, and what becomes of the texts.
use mwptools.Common.{
  ℕ, suc, ◌+◌, ◌-◌, ◌*◌, ◌≡◌, refl, Bool, true, not, ◌&&◌, some, List, [], ◌∷◌, ◌++◌, length, All,
  if◌then◌else◌, arith, Bool-cases, inl, inr,
}
use mwptools.Common.Int.{ℤ}
use mwptools.Common.Result.{ok}
use mwptools.Common.Buffer.{has_no_nul, store-terminated, text-append}
use mwptools.Camera.Enumerate.{
  failed, Camera, Moniker, System, wide, to_utf8, name_of, cam_dev_copy, cam_dev_destroy,
}

-- What the code relies on: `malloc` returns as many bytes as it is asked for, and no character but
-- NUL has a byte 0 in UTF-8.
pub record IsSystem (sys : System) : Type 0 where
  pub malloc : (n : ℕ) → length (sys.malloc n) ≡ n
  pub utf8 : (w : List ℕ) → has_no_nul w ≡ true → has_no_nul (sys.utf8 w) ≡ true

-- A device is listed when it can be bound and its name and its path can be read; its name is lost
-- when the path cannot.
abbrev pub is_named : Moniker → Bool
is_named m = not (failed m.binds) && not (failed (name_of m).0)

abbrev pub is_listed : Moniker → Bool
is_listed m = is_named m && not (failed m.device_path.0)

abbrev pub is_lost : Moniker → Bool
is_lost m = is_named m && failed m.device_path.0

abbrev pub camera : System → Moniker → Camera
camera sys m = record {
  dspname = some (sys.utf8 (wide (name_of m).1));
  devname = some (sys.utf8 (wide m.device_path.1));
}

abbrev pub cameras : System → List Moniker → List Camera
cameras sys [] = []
cameras sys (m ∷ ms) = (if is_listed m then camera sys m ∷ [] else []) ++ cameras sys ms

abbrev pub count_lost : List Moniker → ℕ
count_lost [] = 0
count_lost (m ∷ ms) = (if is_lost m then 1 else 0) + count_lost ms

-- The last code that the loop meets.
abbrev pub outcome : Moniker → ℤ
outcome m =
    if failed m.binds
    then m.binds
    else if failed (name_of m).0
    then (name_of m).0
    else m.device_path.0

abbrev pub last_outcome : ℤ → List Moniker → ℤ
last_outcome hr [] = hr
last_outcome hr (m ∷ ms) = last_outcome (outcome m) ms

has_no_nul-wide : (w : List ℕ) → has_no_nul (wide w) ≡ true
has_no_nul-wide [] = refl
has_no_nul-wide (c ∷ w) = ground (arith, has_no_nul-wide w)

pub to_utf8-ok : (sys : System) (w : List ℕ) → IsSystem sys → to_utf8 sys w ≡ ok (sys.utf8 (wide w))
unfolding to_utf8
to_utf8-ok sys w h =
    let bytes : List ℕ = sys.utf8 (wide w) in
    rw (store-terminated bytes (sys.malloc (length bytes + 1)) (h.malloc (length bytes + 1)))
      (text-append bytes [] (h.utf8 (wide w) (has_no_nul-wide w)))

-- The texts that are left when the caller has destroyed each of some cameras.
abbrev pub destroy_all : List Camera → ℕ → ℕ
destroy_all [] texts = texts
destroy_all (c ∷ cs) texts = destroy_all cs (cam_dev_destroy (some c) texts)

pub cameras-destroyed :
    (sys : System) (ms : List Moniker) (n : ℕ)
    → destroy_all (cameras sys ms) (2 * length (cameras sys ms) + n) ≡ n
unfolding cam_dev_destroy
cameras-destroyed sys [] n = omega arith
cameras-destroyed sys (m ∷ ms) n = elim (Bool-cases (is_listed m)) [
  | inl yes_listed ↦
      let two : 2 * suc (length (cameras sys ms)) + n - 1 - 1 ≡ 2 * length (cameras sys ms) + n =
        omega arith in
      rw (yes_listed, two) (cameras-destroyed sys ms n)
  | inr skipped ↦ rw skipped (cameras-destroyed sys ms n)
]

pub cameras-copied :
    (sys : System) (ms : List Moniker) → All (λ c. cam_dev_copy c ≡ ok c) (cameras sys ms)
unfolding cam_dev_copy
cameras-copied sys [] = tt
cameras-copied sys (m ∷ ms) = elim (Bool-cases (is_listed m)) [
  | inl yes_listed ↦ rw yes_listed (refl, cameras-copied sys ms)
  | inr skipped ↦ rw skipped (cameras-copied sys ms)
]
