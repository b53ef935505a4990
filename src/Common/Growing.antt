-- ===== src/Common/Growing.antt =====
-- An array that grows by blocks of 16 cells, with its counters: how many cells are in use and how many
-- there are. A cell that `realloc` added and nothing has written holds nothing. The allocations
-- succeed: the code that uses such arrays does not look at their results.
use Prim.Native.Nat.{ℕ, zero, suc, ◌+◌, ◌%◌, ◌≤◌, ◌<◌}
use mathlib.Core.Path.{◌≡◌, refl, ap, ◌∙◌}
use mathlib.Core.Logic.{inl, inr}
use mathlib.Core.Option.{Option, none, some}
use mathlib.Core.List.{List, [], ◌∷◌, ◌++◌, map, map-append}
use native.Mathlib.Omega.{arith}
use native.Mathlib.Numerals.{add-one}
use mwptools.Common.Tests.{ltb, ◌==◌, if◌then◌else◌, lt→ltb, Bool-cases}
use mwptools.Common.Lists.{
  length, set, take, replicate, length-append, length-set, length-replicate,
}
use mwptools.Common.Result.{Result, ok, fault, past_end}

pub record Growing (A : Type 0) : Type 0 where
  pub slots : List (Option A)
  pub nres : ℕ
  pub nalloc : ℕ

-- What `calloc` returns, `zero_cell` being the value of a cell of zeros.
abbrev pub calloc : {A : Type 0} → A → Growing A
calloc zero_cell = record { slots = replicate 16 (some zero_cell); nres = 0; nalloc = 16 }

-- `if (nres == nalloc) { nalloc += 16; slots = realloc(slots, ..); }`
abbrev pub make_room : {A : Type 0} → Growing A → Growing A
make_room p =
    if p.nres == p.nalloc
    then record p { slots = p.slots ++ replicate 16 none; nalloc = p.nalloc + 16 }
    else p

-- `slots[nres] = cell; nres++;`
abbrev pub write : {A : Type 0} → A → Growing A → Result (Growing A)
write cell p =
    if ltb p.nres (length p.slots)
    then ok (record p { slots = set p.slots p.nres (some cell); nres = p.nres + 1 })
    else fault past_end

unfoldable pub add : {A : Type 0} → A → Growing A → Result (Growing A)
add cell p = write cell (make_room p)

-- The caller reads `nres` cells.
abbrev pub reported : {A : Type 0} → Growing A → List (Option A)
reported p = take p.nres p.slots

-- The array has as many cells as `nalloc` says, which are blocks of 16, and the first `nres` of them
-- hold the given values.
pub record Holds {A : Type 0} (cells : List A) (p : Growing A) : Type 0 where
  pub allocated : length p.slots ≡ p.nalloc
  pub within : p.nres ≤ p.nalloc
  pub blocks : p.nalloc % 16 ≡ 0
  pub counted : p.nres ≡ length cells
  pub contents : reported p ≡ map some cells

take-append : {A : Type 0} (n : ℕ) (xs ys : List A) → n ≤ length xs → take n (xs ++ ys) ≡ take n xs
take-append zero xs ys h = refl
take-append (suc n) [] ys h = absurd (omega arith)
take-append (suc n) (x ∷ xs) ys h = ap (λ r. x ∷ r) (take-append n xs ys (omega arith))

take-set :
    {A : Type 0} (n : ℕ) (xs : List A) (v : A)
    → n < length xs
    → take (suc n) (set xs n v) ≡ take n xs ++ v ∷ []
take-set n [] v h = absurd (omega arith)
take-set zero (x ∷ xs) v h = refl
take-set (suc n) (x ∷ xs) v h = ap (λ r. x ∷ r) (take-set n xs v (omega arith))

pub calloc-Holds : {A : Type 0} (zero_cell : A) → Holds [] (calloc zero_cell)
calloc-Holds zero_cell = record {
  allocated = refl;
  within = omega arith;
  blocks = refl;
  counted = refl;
  contents = refl;
}

make_room-Holds :
    {A : Type 0} {cells : List A} {p : Growing A}
    → Holds cells p
    → Holds cells (make_room p) × (p.nres < (make_room p).nalloc)
make_room-Holds {A} {cells} {p} h = elim (Bool-cases (p.nres == p.nalloc)) [
  | inl full ↦ rw full (
    record {
      allocated = simp (length-append, length-replicate) (omega (arith, h.allocated));
      within = ground (arith, h.within);
      blocks = ground (arith, h.blocks);
      counted = h.counted;
      contents =
          take-append p.nres p.slots (replicate 16 none) (ground (arith, h.allocated)) ∙ h.contents;
    },
    ground arith,
  )
  | inr room ↦ rw room (h, ground arith)
]

-- One value is added behind the others, and never out of bounds.
pub add-ok :
    {A : Type 0} (cell : A) {cells : List A} {p : Growing A}
    → Holds cells p
    → (p' : Growing A) × (add cell p ≡ ok p') × Holds (cells ++ cell ∷ []) p'
unfolding add
add-ok {A} cell {cells} {p} h =
    let (m, room) = make_room-Holds h in
    let q : Growing A = make_room p in
    let inside : q.nres < length q.slots = ground (arith, m.allocated) in
    (
      record q { slots = set q.slots q.nres (some cell); nres = q.nres + 1 },
      rw (lt→ltb _ _ inside),
      record {
        allocated = length-set q.slots q.nres (some cell) ∙ m.allocated;
        within = ground arith;
        blocks = m.blocks;
        counted = omega (arith, m.counted, length-append cells (cell ∷ []));
        contents =
            rw (add-one q.nres, take-set q.nres q.slots (some cell) inside, map-append)
              (ap (λ xs. xs ++ some cell ∷ []) m.contents);
      },
    )
