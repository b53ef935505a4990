-- ===== src/ReadSb/Descriptor/Ranges.antt =====
-- When a range table of src/mwp/readsb.pb-c.c finds every number where the table of fields has it.
use mwptools.Common.{
  ℕ, zero, suc, ◌+◌, ◌-◌, ◌≡◌, refl, not, map, all, get_elem?, get_elem?-all, &&-true, ltb, Bool,
  true, false, ◌&&◌, Option, none, some, List, [], ◌∷◌, drop, leb, ◌==◌, if◌then◌else◌, arith, ap,
}
use mwptools.ReadSb.Descriptor.{Range, range_from, range_index, shift, position}

-- The list begins with `k` numbers from `a` on.
abbrev pub counts_from : ℕ → ℕ → List ℕ → Bool
counts_from a zero xs = true
counts_from a (suc k) [] = false
counts_from a (suc k) (x ∷ xs) = (x == a) && counts_from (suc a) k xs

abbrev pub is_empty : List ℕ → Bool
is_empty [] = true
is_empty (x ∷ xs) = false

-- The ranges list the numbers of a table, in its order.
abbrev pub covers_from : Range → List Range → List ℕ → Bool
covers_from r [] xs = is_empty xs
covers_from r (s ∷ rs) xs =
    let k = s.orig_index - r.orig_index in
    leb r.orig_index s.orig_index
    && (counts_from r.start_value k xs && covers_from s rs (drop k xs))

abbrev pub covers : List Range → List ℕ → Bool
covers [] xs = is_empty xs
covers (r ∷ rs) xs = (r.orig_index == 0) && covers_from r rs xs

shift-zero : (o : Option ℕ) → shift 0 o ≡ o
shift-zero none = refl
shift-zero (some i) = ap some (omega arith)

shift-shift : (j k : ℕ) (o : Option ℕ) → shift j (shift k o) ≡ shift (j + k) o
shift-shift j k none = refl
shift-shift j k (some i) = ap some (omega arith)

position-counts_from :
    (n a k : ℕ) (xs : List ℕ)
    → counts_from a k xs ≡ true
    → position n xs
      ≡ (if leb a n && ltb n (a + k) then some (n - a) else shift k (position n (drop k xs)))
unfolding position
position-counts_from n a zero xs h = ground (arith, shift-zero (position n xs))
position-counts_from n a (suc k) [] h = ground arith
position-counts_from n a (suc k) (x ∷ xs) h =
    ground (arith, position-counts_from n (suc a) k xs, shift-shift 1 k (position n (drop k xs)))

range_from-position :
    (r : Range) (rs : List Range) (xs : List ℕ) (n : ℕ)
    → covers_from r rs xs ≡ true
    → range_from r rs n ≡ shift r.orig_index (position n xs)
unfolding range_from position
range_from-position r [] [] n h = refl
range_from-position r [] (x ∷ xs) n h = ground arith
range_from-position r (s ∷ rs) xs n h = ground (
  arith,
  position-counts_from n r.start_value (s.orig_index - r.orig_index) xs,
  range_from-position s rs (drop (s.orig_index - r.orig_index) xs) n,
  shift-shift r.orig_index (s.orig_index - r.orig_index)
      (position n (drop (s.orig_index - r.orig_index) xs)),
)

pub range_index-position :
    (rs : List Range) (xs : List ℕ) (n : ℕ) → covers rs xs ≡ true → range_index rs n ≡ position n xs
unfolding range_index position
range_index-position [] [] n h = refl
range_index-position [] (x ∷ xs) n h = ground arith
range_index-position (r ∷ rs) xs n h =
    ground (arith, range_from-position r rs xs n, shift-zero (position n xs))

abbrev pub is_increasing : List ℕ → Bool
is_increasing [] = true
is_increasing (x ∷ xs) = all (ltb x) xs && is_increasing xs

pub position-get_elem? :
    (xs : List ℕ) (i : ℕ) {n : ℕ}
    → is_increasing xs ≡ true
    → get_elem? xs i ≡ some n
    → position n xs ≡ some i
unfolding position
position-get_elem? [] i h e = ground arith
position-get_elem? (x ∷ xs) zero {n} h e = let x_is : x ≡ n = ground arith in rw x_is (ground arith)
position-get_elem? (x ∷ xs) (suc i) {n} h e =
    let (below, rest) = &&-true (all (ltb x) xs) (is_increasing xs) h in
    let x_lt : ltb x n ≡ true = get_elem?-all (ltb x) xs i below e in
    ground (arith, position-get_elem? xs i rest e)

pub position-absent {ℓ} :
    {A : Type ℓ} (f : A → ℕ) (xs : List A) (n : ℕ)
    → all (λ x. not (f x == n)) xs ≡ true
    → position n (map f xs) ≡ none
unfolding position
position-absent f [] n h = refl
position-absent f (x ∷ xs) n h = ground (arith, position-absent f xs n)
