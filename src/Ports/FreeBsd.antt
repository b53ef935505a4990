-- ===== src/Ports/FreeBsd.antt =====
-- `check_ports`, `check_insert_name` and `check_delete_name` of src/clib/poll_serials.c for FreeBSD.
use mwptools.Common.{
  ℕ, zero, suc, ◌+◌, ◌/◌, ◌%◌, ◌≤◌, ◌≡◌, refl, ap, ◌∙◌, Bool, true, false, Option, none, some, List,
  [], ◌∷◌, ◌++◌, map, keep, All, all, length, set, replicate, ltb, ◌==◌, if◌then◌else◌, arith,
  Bool-cases, inl, inr, &&-true, ◌&&◌, take, drop, length-append, set-append, length-replicate,
}
use mwptools.Common.Int.{ℤ, pos}
use mwptools.Common.Result.{Result, ok, fault, past_end, ◌>>=◌}
use mwptools.Common.CString.{codes, strncmp}
use mwptools.Common.Buffer.{strcpy, text, has_no_nul, strcpy-append, text-append}
use mathlib.Core.List.{append_assoc, append-nil}
use mwptools.Common.Decimal.{decimal}
use mwptools.Ports.Devs.{fill, Adds, filled, fill-fits}

-- `sprintf(buf, "/dev/cuaU%d", i)`, and the text that the array then holds.
pub device_name : ℕ → List ℕ → Result (List ℕ)
device_name i buf = strcpy 0 (codes "/dev/cuaU" ++ decimal i) buf >>= text

-- `stat(name, &sb) == 0` and `(sb.st_mode & S_IFMT) == S_IFCHR`; `none` where `stat` fails.
abbrev pub is_char_device : Option ℕ → Bool
is_char_device none = false
is_char_device (some mode) = mode / 4096 % 16 == 2

-- `ids` and `n`
pub record Ids : Type 0 where
  pub ids : List ℕ
  pub n : ℕ

abbrev pub remember : ℕ → Ids → Result Ids
remember i s =
    if ltb s.n (length s.ids)
    then ok (record { ids = set s.ids s.n i; n = s.n + 1 })
    else fault past_end

-- The rounds of the first loop from `i` on, `left` of them.
pub scan : (List ℕ → Option ℕ) → List ℕ → ℕ → ℕ → Ids → Result Ids
unfolding device_name
scan stat name zero i s = ok s
scan stat name (suc left) i s = do
  path ← device_name i name
  s' ← (if is_char_device (stat path) then remember i s else ok s)
  scan stat name left (i + 1) s'

-- What follows the first loop; `malloc(n)` returns bytes of any kind.
pub list_ids : (ℕ → List ℕ) → Ids → Result (Option (List (Option (List ℕ))))
unfolding device_name
list_ids malloc s =
    if s.n == 0
    then ok none
    else (fill (λ i. some (device_name i (malloc 16))) (take s.n s.ids)
          (record { slots = replicate (s.n + 1) none; j = 0 })
        >>= λ d. ok (some d.slots))

-- `name` and `ids` are what the two arrays hold at first.
unfoldable pub check_ports :
    (List ℕ → Option ℕ) → (ℕ → List ℕ) → List ℕ → List ℕ → Result (Option (List (Option (List ℕ))))
unfolding scan list_ids
check_ports stat malloc name ids =
    scan stat name 32 0 (record { ids = ids; n = 0 }) >>= λ s. list_ids malloc s

unfoldable pub check_insert_name : List ℕ → ℤ
check_insert_name s = pos 1

unfoldable pub check_delete_name : List ℕ → ℤ
check_delete_name s = strncmp s (codes "/dev/cuaU")

abbrev pub device : ℕ → List ℕ
device i = codes "/dev/cuaU" ++ decimal i

abbrev pub range : ℕ → ℕ → List ℕ
range i zero = []
range i (suc left) = i ∷ range (i + 1) left

abbrev pub is_device : (List ℕ → Option ℕ) → ℕ → Bool
is_device stat i = is_char_device (stat (device i))

abbrev is_short : ℕ → Bool
is_short i = ltb (length (device i)) 16 && has_no_nul (device i)

device_name-ok :
    (i : ℕ) (buf : List ℕ) → is_short i ≡ true → 16 ≤ length buf → device_name i buf ≡ ok (device i)
unfolding device_name
device_name-ok i buf short size =
    let (fits, clean) = &&-true (ltb (length (device i)) 16) _ short in
    rw (strcpy-append 0 [] (device i) buf refl (ground arith)) (text-append (device i) _ clean)

remember-ok :
    (i x : ℕ) (p r : List ℕ)
    → remember i (record { ids = p ++ x ∷ r; n = length p })
      ≡ ok (record { ids = (p ++ i ∷ []) ++ r; n = length (p ++ i ∷ []) })
remember-ok i x p r =
    let room : ltb (length p) (length (p ++ x ∷ r)) ≡ true =
      ground (arith, length-append p (x ∷ r)) in
    let one : length (p ++ i ∷ []) ≡ length p + 1 = length-append p (i ∷ []) in
    rw (room, set-append p x i r, append_assoc p (i ∷ []) r, one) refl

module _ (stat : List ℕ → Option ℕ) (name : List ℕ) (size : length name ≡ 32) where
  scan-found :
      (left i : ℕ) (p r : List ℕ)
      → all is_short (range i left) ≡ true
      → left ≤ length r
      → (r' : List ℕ) × (scan stat name left i (record { ids = p ++ r; n = length p })
          ≡ ok (record {
            ids = (p ++ keep (is_device stat) (range i left)) ++ r';
            n = length (p ++ keep (is_device stat) (range i left));
          }))
  unfolding scan
  scan-found zero i p r short room = (r, rw append-nil refl)
  scan-found (suc left) i p [] short room = absurd (omega arith)
  scan-found (suc left) i p (x ∷ r) short room =
      let (here, there) = &&-true (is_short i) (all is_short (range (i + 1) left)) short in
      let named : device_name i name ≡ ok (device i) =
        device_name-ok i name here (omega (arith, size)) in
      elim (Bool-cases (is_device stat i)) [
        | inl yes' ↦
            let (r', e) = scan-found left (i + 1) (p ++ i ∷ []) r there (omega arith) in
            (
              r',
              rw (named, yes', remember-ok i x p r)
                  (e
                    ∙ ap (λ q. ok (record { ids = q ++ r'; n = length q }))
                        (append_assoc p (i ∷ []) (keep (is_device stat) (range (i + 1) left)))),
            )
        | inr no' ↦
            let (r', e) = scan-found left (i + 1) p (x ∷ r) there (omega arith) in
            (r', rw (named, no') e)
      ]

all-keep : {A : Type 0} (p q : A → Bool) (xs : List A) → all p xs ≡ true → all p (keep q xs) ≡ true
all-keep p q [] h = refl
all-keep p q (x ∷ xs) h = elim (Bool-cases (q x)) [
  | inl yes' ↦ rw yes' (ground (arith, all-keep p q xs))
  | inr no' ↦ rw no' (ground (arith, all-keep p q xs))
]

keep-true : {A : Type 0} (xs : List A) → keep (λ x. true) xs ≡ xs
keep-true [] = refl
keep-true (x ∷ xs) = ap (λ r. x ∷ r) (keep-true xs)

take-append : {A : Type 0} (xs ys : List A) → take (length xs) (xs ++ ys) ≡ xs
take-append [] ys = refl
take-append (x ∷ xs) ys = ap (λ r. x ∷ r) (take-append xs ys)

abbrev element : (ℕ → List ℕ) → ℕ → Option (Result (List ℕ))
element malloc i = some (device_name i (malloc 16))

each-Adds :
    (malloc : ℕ → List ℕ) (is : List ℕ)
    → length (malloc 16) ≡ 16
    → all is_short is ≡ true
    → All (Adds (element malloc) (λ i. true) device) is
each-Adds malloc [] size h = tt
each-Adds malloc (i ∷ is) size h =
    let (here, there) = &&-true (is_short i) (all is_short is) h in
    (
      ap some (device_name-ok i (malloc 16) here (omega (arith, size))),
      each-Adds malloc is size there,
    )

all_short : all is_short (range 0 32) ≡ true
unfolding decimal
all_short = refl

drop-room : (n : ℕ) → drop n (replicate {A = Option (List ℕ)} (n + 1) none) ≡ none ∷ []
drop-room zero = refl
drop-room (suc n) = let e : suc n + 1 ≡ suc (n + 1) = omega arith in rw e (drop-room n)

abbrev pub listed : List ℕ → List (Option (List ℕ))
listed is = map (λ i. some (device i)) is ++ none ∷ []

fill-listed :
    (malloc : ℕ → List ℕ) (is : List ℕ)
    → length (malloc 16) ≡ 16
    → all is_short is ≡ true
    → fill (element malloc) is (record { slots = replicate (length is + 1) none; j = 0 })
      ≡ ok (filled (map (λ i. some (device i)) is) (none ∷ []))
fill-listed malloc is size short =
    let slots : List (Option (List ℕ)) = replicate (length is + 1) none in
    let room : length slots ≡ length is + 1 = length-replicate (length is + 1) none in
    let enough : length (keep (λ i. true) is) ≤ length slots =
      omega (arith, ap length (keep-true is), room) in
    fill-fits (element malloc) (λ i. true) device is [] slots (each-Adds malloc is size short)
      enough
    ∙ ap (λ xs. ok (filled (map (λ i. some (device i)) xs) (drop (length xs) slots))) (keep-true is)
    ∙ ap (λ r. ok (filled (map (λ i. some (device i)) is) r)) (drop-room (length is))

list_ids-listed :
    (malloc : ℕ → List ℕ) (is r : List ℕ)
    → length (malloc 16) ≡ 16
    → all is_short is ≡ true
    → list_ids malloc (record { ids = is ++ r; n = length is })
      ≡ ok (if length is == 0 then none else some (listed is))
unfolding list_ids
list_ids-listed malloc is r size short = elim (Bool-cases (length is == 0)) [
  | inl empty ↦ rw empty refl
  | inr some_ids ↦ rw (some_ids, take-append is r, fill-listed malloc is size short) refl
]

-- The function lists the paths of exactly the numbers from 0 to 31 whose path is a character device,
-- in order, with one NULL pointer at the end, and returns NULL when there are none. It never writes
-- past the end of the two buffers for a name, of `ids`, or of the array.
pub check_ports-devices :
    (stat : List ℕ → Option ℕ) (malloc : ℕ → List ℕ) (name ids : List ℕ)
    → length (malloc 16) ≡ 16
    → length name ≡ 32
    → length ids ≡ 32
    → let found = keep (is_device stat) (range 0 32) in
      check_ports stat malloc name ids
      ≡ ok (if length found == 0 then none else some (listed found))
unfolding check_ports
check_ports-devices stat malloc name ids fits size room =
    let found : List ℕ = keep (is_device stat) (range 0 32) in
    let (r', e) = scan-found stat name size 32 0 [] ids all_short (omega (arith, room)) in
    let short : all is_short found ≡ true =
      all-keep is_short (is_device stat) (range 0 32) all_short in
    ap (λ s. s >>= λ s'. list_ids malloc s') e ∙ list_ids-listed malloc found r' fits short
