-- ===== src/Ports/Darwin.antt =====
-- `check_ports`, `check_insert_name` and `check_delete_name` of src/clib/poll_serials.c for macOS.
use mwptools.Common.{
  ℕ, ◌+◌, ◌-◌, ◌≤◌, ◌≡◌, refl, ap, ◌∙◌, Bool, true, false, ◌&&◌, ◌||◌, ◌==◌, ◌⊎◌, Option, none,
  some, List, [], ◌∷◌, ◌++◌, keep, All, length, replicate, leb, if◌then◌else◌, arith, Bool-cases,
  inl, inr, length-map,
}
use mwptools.Common.Int.{ℤ, pos, negsuc}
use mwptools.Common.Result.{Result, ok}
use mwptools.Common.CString.{
  codes, starts_with, starts_with_case, strstr, strncmp, strncasecmp, strncmp-starts_with,
  strncasecmp-starts_with, starts_with-case,
}
use mwptools.Common.Buffer.{has_no_nul}
use mwptools.Ports.Devs.{Adds, paths}
use mwptools.Ports.Listing.{dev_path, dev_path-ok, path, two_pass, two_pass-listed, listed}

-- `strstr(name, "modem") != NULL`
abbrev pub has_modem : List ℕ → Bool
has_modem name = elim (strstr name (codes "modem")) [ none ↦ false | some rest ↦ true ]

-- The test of the first pass, and that of the second, where `strncmp` stands for `strncasecmp`.
unfoldable pub counts : List ℕ → Bool
counts name =
    starts_with_case (codes "cu.usb") name
    || (starts_with_case (codes "cu.bluetooth") name && has_modem name)

unfoldable pub adds : List ℕ → Bool
adds name =
    starts_with_case (codes "cu.usb") name
    || (starts_with (codes "cu.bluetooth") name && has_modem name)

-- `malloc(n)` returns bytes of any kind.
abbrev pub element : (ℕ → List ℕ) → List ℕ → Option (Result (List ℕ))
element malloc name = if adds name then some (dev_path name (malloc (length name + 6))) else none

unfoldable pub check_ports :
    (ℕ → List ℕ)
    → Option (List (List ℕ))
    → Option (List (List ℕ))
    → Result (Option (List (Option (List ℕ))))
check_ports malloc first second = two_pass counts (element malloc) first second

unfoldable pub check_insert_name : List ℕ → ℤ
check_insert_name s = pos 1

abbrev is_zero : ℤ → Bool
is_zero (pos n) = n == 0
is_zero (negsuc n) = false

unfoldable pub check_delete_name : List ℕ → ℤ
check_delete_name s =
    let res = strncasecmp s (codes "/dev/cu.usb") in
    if is_zero res then res else strncmp s (codes "/dev/cu.bluetooth")

-- What the two passes list, the names of the directory having no NUL bytes: with nothing counted,
-- there is no array; otherwise it holds the paths of the names that the second pass takes, followed
-- by as many NULL pointers as the first counted names more, and one; and more paths than that are
-- written past its end.
pub check_ports-listed :
    (malloc : ℕ → List ℕ) (names again : List (List ℕ))
    → ((n : ℕ) → length (malloc n) ≡ n)
    → All (λ name. has_no_nul name ≡ true) again
    → check_ports malloc (some names) (some again)
      ≡ listed (length (keep counts names)) (paths adds path again)
unfolding check_ports
check_ports-listed malloc names again sized clean =
    two_pass-listed counts (element malloc) adds names again (each again clean)
  where
    each :
        (again : List (List ℕ))
        → All (λ name. has_no_nul name ≡ true) again
        → All (Adds (element malloc) adds path) again
    each [] h = tt
    each (name ∷ again) h = (
      ap (λ r. if adds name then some r else none)
          (dev_path-ok name (malloc (length name + 6)) h.0 (sized (length name + 6))),
      each again h.1,
    )

or_mono : (a b c m : Bool) → (b ≡ true → c ≡ true) → (a || (b && m)) ≡ true → (a || (c && m)) ≡ true
or_mono true b c m h k = refl
or_mono false true c true h k = rw (h refl) refl
or_mono false true c false h k = ground arith
or_mono false false c m h k = ground arith

adds-counts : (name : List ℕ) → adds name ≡ true → counts name ≡ true
unfolding adds counts
adds-counts name h =
    or_mono (starts_with_case (codes "cu.usb") name) _ _ (has_modem name)
      (starts_with-case (codes "cu.bluetooth") name) h

keep-adds : (names : List (List ℕ)) → length (keep adds names) ≤ length (keep counts names)
keep-adds [] = omega arith
keep-adds (name ∷ names) = ground (arith, adds-counts name, keep-adds names)

-- When the directory does not change between the passes, nothing is written past the array, and a
-- NULL pointer ends it.
pub check_ports-terminated :
    (malloc : ℕ → List ℕ) (names : List (List ℕ))
    → ((n : ℕ) → length (malloc n) ≡ n)
    → All (λ name. has_no_nul name ≡ true) names
    → (check_ports malloc (some names) (some names) ≡ ok none)
      ⊎ ((m : ℕ) × (check_ports malloc (some names) (some names)
            ≡ ok (some (paths adds path names ++ replicate (m + 1) none))))
check_ports-terminated malloc names sized clean =
    let n : ℕ = length (keep counts names) in
    let found : length (paths adds path names) ≡ length (keep adds names) =
      length-map (λ name. some (path name)) (keep adds names) in
    elim (Bool-cases (n == 0)) [
      | inl empty ↦ inl (check_ports-listed malloc names names sized clean ∙ rw empty refl)
      | inr some_names ↦
          let fits : leb (length (keep adds names)) (n + 1) ≡ true =
            ground (arith, keep-adds names) in
          let rest : n + 1 - length (keep adds names) ≡ n - length (keep adds names) + 1 =
            omega (arith, keep-adds names) in
          inr (
            n - length (keep adds names),
            check_ports-listed malloc names names sized clean
                ∙ rw (some_names, found, fits, rest) refl,
          )
    ]

or_cases : (a b m : Bool) → (a || (b && m)) ≡ true → (a ≡ true) ⊎ (b ≡ true)
or_cases true b m h = inl refl
or_cases false true m h = inr refl
or_cases false false m h = ground arith

is_zero-pos : (n : ℤ) → is_zero n ≡ true → n ≡ pos 0
is_zero-pos (pos n) h = ground arith
is_zero-pos (negsuc n) h = ground arith

-- Every path that `check_ports` lists is one that `check_delete_name` lets the watcher remove.
pub check_delete_name-adds :
    (name : List ℕ) → adds name ≡ true → check_delete_name (path name) ≡ pos 0
unfolding check_delete_name adds
check_delete_name-adds name h =
    let res : ℤ = strncasecmp (path name) (codes "/dev/cu.usb") in
    elim (or_cases (starts_with_case (codes "cu.usb") name) _ _ h) [
      | inl usb ↦ rw (strncasecmp-starts_with (path name) (codes "/dev/cu.usb") usb) refl
      | inr bluetooth ↦ elim (Bool-cases (is_zero res)) [
        | inl zero_res ↦ rw zero_res (is_zero-pos res zero_res)
        | inr other ↦
            rw other (strncmp-starts_with (path name) (codes "/dev/cu.bluetooth") bluetooth)
      ]
    ]
