-- ===== src/Ports/Listing.antt =====
-- The two passes over /dev that `check_ports` of src/clib/poll_serials.c makes on macOS and Linux.
use mwptools.Common.{
  ℕ, zero, suc, ◌+◌, ◌-◌, ◌≤◌, ◌<◌, ◌≡◌, refl, ap, ◌∙◌, Bool, true, false, Option, none, some, List,
  [], ◌∷◌, ◌++◌, keep, All, length, drop, replicate, ltb, leb, ltb→lt, ◌==◌, if◌then◌else◌, arith,
  length-append, length-replicate, length-map, Bool-cases, inl, inr,
}
use mwptools.Common.Result.{Result, ok, fault, past_end, ◌>>=◌}
use mwptools.Common.CString.{codes}
use mwptools.Common.Buffer.{
  strcpy, text, has_no_nul, strcpy-append, text-append, strcpy-full, has_no_nul-append, length-drop,
}
use mwptools.Ports.Devs.{Devs, fill, Adds, paths, fill-fits, fill-full}

-- `strcpy(element, "/dev/"); strcat(element, name);`, and the text that the element then holds.
pub dev_path : List ℕ → List ℕ → Result (List ℕ)
dev_path name element = do
  e1 ← strcpy 0 (codes "/dev/") element
  start ← text e1
  e2 ← strcpy (length start) name e1
  text e2

-- `n`, counted by the first pass.
pub count : (List ℕ → Bool) → List (List ℕ) → ℕ
count test [] = 0
count test (name ∷ names) = let n = count test names in if test name then n + 1 else n

-- The names that the two passes over /dev find; `none` where it cannot be opened. The result is
-- `none` for NULL.
pub two_pass :
    (List ℕ → Bool)
    → (List ℕ → Option (Result (List ℕ)))
    → Option (List (List ℕ))
    → Option (List (List ℕ))
    → Result (Option (List (Option (List ℕ))))
unfolding count
two_pass counted element none second = ok none
two_pass counted element (some names) second =
    let n = count counted names in
    if n == 0 then ok none else elim second [
      | none ↦ ok (some (replicate (n + 1) none))
      | some again ↦ fill element again (record { slots = replicate (n + 1) none; j = 0 }) >>= λ d.
          ok (some d.slots)
    ]

abbrev pub path : List ℕ → List ℕ
path name = codes "/dev/" ++ name

-- An array of `strlen(name)+6` bytes has room for the path.
pub dev_path-ok :
    (name element : List ℕ)
    → has_no_nul name ≡ true
    → length element ≡ length name + 6
    → dev_path name element ≡ ok (path name)
unfolding dev_path
dev_path-ok name element clean size =
    let e1 : List ℕ = codes "/dev/" ++ 0 ∷ drop 6 element in
    let copied : strcpy 0 (codes "/dev/") element ≡ ok e1 =
      strcpy-append 0 [] (codes "/dev/") element refl (omega arith) in
    let room : length name < length (0 ∷ drop 6 element) = omega (arith, length-drop 6 element) in
    rw (copied, strcpy-append 5 (codes "/dev/") name (0 ∷ drop 6 element) refl room)
      (text-append (path name) _ (has_no_nul-append (codes "/dev/") name refl clean))

-- A copy of the name alone has none.
pub dev_path-fault : (name : List ℕ) → dev_path name (name ++ 0 ∷ []) ≡ fault past_end
unfolding dev_path
dev_path-fault name =
    let element : List ℕ = name ++ 0 ∷ [] in
    let size : length element ≡ length name + 1 = length-append name (0 ∷ []) in
    elim (Bool-cases (ltb 5 (length element))) [
      | inl fits ↦
          let copied : strcpy 0 (codes "/dev/") element ≡ ok (codes "/dev/" ++ 0 ∷ drop 6 element) =
            strcpy-append 0 [] (codes "/dev/") element refl (ltb→lt _ _ fits) in
          let full : length (codes "/dev/" ++ 0 ∷ drop 6 element) < 5 + length name + 1 =
            ground (arith, length-drop 6 element) in
          rw (copied, strcpy-full 5 name (codes "/dev/" ++ 0 ∷ drop 6 element) full) refl
      | inr short ↦ rw (strcpy-full 0 (codes "/dev/") element (ground arith)) refl
    ]

pub count-keep :
    (test : List ℕ → Bool) (names : List (List ℕ)) → count test names ≡ length (keep test names)
unfolding count
count-keep test [] = refl
count-keep test (name ∷ names) = ground (arith, count-keep test names)

drop-replicate : {A : Type 0} (k n : ℕ) (a : A) → drop k (replicate n a) ≡ replicate (n - k) a
drop-replicate zero n a = let e : n ≡ n - 0 = omega arith in ap (λ m. replicate m a) e
drop-replicate (suc k) zero a = let e : 0 ≡ 0 - suc k = omega arith in ap (λ m. replicate m a) e
drop-replicate (suc k) (suc n) a =
    let e : n - k ≡ suc n - suc k = omega arith in drop-replicate k n a ∙ ap (λ m. replicate m a) e

-- The outcome of two passes, the first counting `n` names and the second adding the given paths.
abbrev pub listed : ℕ → List (Option (List ℕ)) → Result (Option (List (Option (List ℕ))))
listed n found =
    if n == 0
    then ok none
    else if leb (length found) (n + 1)
    then ok (some (found ++ replicate (n + 1 - length found) none))
    else fault past_end

pub two_pass-listed :
    (counted : List ℕ → Bool) (element : List ℕ → Option (Result (List ℕ))) (test : List ℕ → Bool)
    (names again : List (List ℕ))
    → All (Adds element test path) again
    → two_pass counted element (some names) (some again)
      ≡ listed (length (keep counted names)) (paths test path again)
unfolding two_pass
two_pass-listed counted element test names again h =
    let n : ℕ = length (keep counted names) in
    let k : ℕ = length (keep test again) in
    let room : List (Option (List ℕ)) = replicate (n + 1) none in
    let size : length room ≡ n + 1 = length-replicate (n + 1) none in
    let found : length (paths test path again) ≡ k =
      length-map (λ name. some (path name)) (keep test again) in
    elim (Bool-cases (n == 0)) [
      | inl empty ↦ rw (count-keep counted names, empty) refl
      | inr some_names ↦ elim (Bool-cases (leb k (n + 1))) [
        | inl fits ↦
            rw
              (
                count-keep counted names,
                some_names,
                found,
                fits,
                fill-fits element test path again [] room h (ground arith),
                drop-replicate {A = Option (List ℕ)} k (n + 1) none,
              )
              refl
        | inr more ↦
            rw
              (
                count-keep counted names,
                some_names,
                found,
                more,
                fill-full element test path again [] room h (ground arith),
              )
              refl
      ]
    ]

pub two_pass-fault :
    (counted : List ℕ → Bool) (element : List ℕ → Option (Result (List ℕ)))
    (names again : List (List ℕ))
    → 1 ≤ length (keep counted names)
    → ((d : Devs) → fill element again d ≡ fault past_end)
    → two_pass counted element (some names) (some again) ≡ fault past_end
unfolding two_pass
two_pass-fault counted element names again some_names fails =
    let n : ℕ = length (keep counted names) in
    let counted_some : (n == 0) ≡ false = ground arith in
    rw
      (
        count-keep counted names,
        counted_some,
        fails (record { slots = replicate (n + 1) none; j = 0 }),
      )
      refl
