-- ===== src/Ports/Linux.antt =====
-- `check_ports` of src/clib/poll_serials.c for Linux, which the build compiles in under
-- `TESTMEHARDER`.
use mwptools.Common.{
  ℕ, suc, ◌+◌, ◌≤◌, ◌≡◌, refl, ap, ◌∙◌, Bool, true, false, not, ◌&&◌, ◌||◌, ◌==◌, Option, none,
  some, List, [], ◌∷◌, ◌++◌, keep, All, length, if◌then◌else◌, arith, Bool-cases, inl, inr,
}
use mwptools.Common.Int.{ℤ, pos}
use mwptools.Common.Result.{Result, fault, past_end}
use mwptools.Common.CString.{codes, starts_with_case}
use mwptools.Common.Buffer.{has_no_nul}
use mwptools.Ports.Devs.{Adds, AddsOrFails, paths, fill-fault}
use mwptools.Ports.Listing.{
  dev_path, dev_path-ok, dev_path-fault, path, two_pass, two_pass-listed, two_pass-fault, listed,
}

unfoldable pub is_usb : List ℕ → Bool
is_usb name = starts_with_case (codes "ttyUSB") name

unfoldable pub is_acm : List ℕ → Bool
is_acm name = starts_with_case (codes "ttyACM") name

abbrev pub counts : List ℕ → Bool
counts name = is_usb name || is_acm name

-- The array of an `ACM` device is `strdup(name)`.
abbrev pub element : (ℕ → List ℕ) → List ℕ → Option (Result (List ℕ))
element malloc name =
    if is_usb name
    then some (dev_path name (malloc (length name + 6)))
    else if is_acm name
    then some (dev_path name (name ++ 0 ∷ []))
    else none

unfoldable pub check_ports :
    (ℕ → List ℕ)
    → Option (List (List ℕ))
    → Option (List (List ℕ))
    → Result (Option (List (Option (List ℕ))))
check_ports malloc first second = two_pass counts (element malloc) first second

unfoldable pub check_insert_name : List ℕ → ℤ
check_insert_name s = pos 1

unfoldable pub check_delete_name : List ℕ → ℤ
check_delete_name s = pos 0

abbrev pub only_acm : List ℕ → Bool
only_acm name = not (is_usb name) && is_acm name

each-AddsOrFails :
    (malloc : ℕ → List ℕ) (names : List (List ℕ))
    → ((n : ℕ) → length (malloc n) ≡ n)
    → All (λ name. has_no_nul name ≡ true) names
    → All (AddsOrFails (element malloc) is_usb is_acm path) names
each-AddsOrFails malloc [] sized h = tt
each-AddsOrFails malloc (name ∷ names) sized h = (
  rw
      (
        dev_path-ok name (malloc (length name + 6)) h.0 (sized (length name + 6)),
        dev_path-fault name,
      )
      refl,
  each-AddsOrFails malloc names sized h.1,
)

no_second :
    {A : Type 0} (a b : Bool) (x y z : A)
    → (not a && b) ≡ false
    → (if a then x else if b then y else z) ≡ (if a then x else z)
no_second true b x y z h = refl
no_second false true x y z h = ground arith
no_second false false x y z h = refl

-- A directory without an ACM device: the first name, and the others.
without_acm :
    (name : List ℕ) (names : List (List ℕ))
    → length (keep only_acm (name ∷ names)) ≡ 0
    → (only_acm name ≡ false) × (length (keep only_acm names) ≡ 0)
without_acm name names e = elim (Bool-cases (only_acm name)) [
  | inl acm ↦ absurd (let e' : suc (length (keep only_acm names)) ≡ 0 = rw acm at e in omega arith)
  | inr other ↦ (other, rw other at e)
]

each-Adds :
    (malloc : ℕ → List ℕ) (names : List (List ℕ))
    → All (AddsOrFails (element malloc) is_usb is_acm path) names
    → length (keep only_acm names) ≡ 0
    → All (Adds (element malloc) is_usb path) names
each-Adds malloc [] h e = tt
each-Adds malloc (name ∷ names) h e =
    let (here, there) = without_acm name names e in
    (h.0 ∙ no_second (is_usb name) (is_acm name) _ _ none here, each-Adds malloc names h.1 there)

keep-counts :
    (names : List (List ℕ))
    → length (keep only_acm names) ≡ 0
    → length (keep counts names) ≡ length (keep is_usb names)
keep-counts [] e = refl
keep-counts (name ∷ names) e =
    let (here, there) = without_acm name names e in
    let rest : length (keep counts names) ≡ length (keep is_usb names) = keep-counts names there in
    elim (Bool-cases (is_usb name)) [
      | inl usb ↦ rw usb (ap suc rest)
      | inr other ↦ let no_acm : is_acm name ≡ false = rw other at here in rw (other, no_acm) rest
    ]

acm-counted : (names : List (List ℕ)) → length (keep only_acm names) ≤ length (keep counts names)
acm-counted [] = omega arith
acm-counted (name ∷ names) = ground (arith, acm-counted names)

-- A directory with an ACM device makes the function write past the end of the copy of its name; with
-- none, the function lists the paths of the USB devices, and one NULL pointer ends the array. The
-- names have no NUL bytes, and the directory does not change between the passes.
pub check_ports-acm :
    (malloc : ℕ → List ℕ) (names : List (List ℕ))
    → ((n : ℕ) → length (malloc n) ≡ n)
    → All (λ name. has_no_nul name ≡ true) names
    → check_ports malloc (some names) (some names) ≡ (
        if length (keep only_acm names) == 0
        then listed (length (keep is_usb names)) (paths is_usb path names)
        else fault past_end)
unfolding check_ports
check_ports-acm malloc names sized clean =
    let each : All (AddsOrFails (element malloc) is_usb is_acm path) names =
      each-AddsOrFails malloc names sized clean in
    elim (Bool-cases (length (keep only_acm names) == 0)) [
      | inl none_acm ↦
          let e : length (keep only_acm names) ≡ 0 = ground arith in
          rw none_acm (
            two_pass-listed counts (element malloc) is_usb names names
              (each-Adds malloc names each e)
            ∙ ap (λ n. listed n (paths is_usb path names)) (keep-counts names e))
      | inr some_acm ↦
          let one : 1 ≤ length (keep only_acm names) = ground arith in
          rw some_acm (
            two_pass-fault counts (element malloc) names names (omega (arith, acm-counted names))
              (λ d. fill-fault (element malloc) is_usb is_acm path names d each one))
    ]
