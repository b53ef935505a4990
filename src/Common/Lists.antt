-- ===== src/Common/Lists.antt =====
-- Lists measured and indexed by native numbers, under the library's names.
use Prim.Native.Nat.{ℕ, zero, suc, ◌+◌, ◌≤◌, ◌<◌, min}
use mathlib.Core.Path.{◌≡◌, refl, sym, ◌∙◌, ap, subst}
use mathlib.Core.Bool.{Bool, true, ◌&&◌}
use mathlib.Core.List.{List, [], ◌∷◌, ◌++◌, map}
use mathlib.Core.Option.{Option, none, some}
use mathlib.Core.Option.{some-injective}
use native.Mathlib.Omega.{arith}
use mwptools.Common.Tests.{if◌then◌else◌, ltb}

module _ {ℓ} {A : Type ℓ} where
  abbrev pub length : List A → ℕ
  length [] = 0
  length (x ∷ xs) = suc (length xs)

  abbrev pub get_elem? : List A → ℕ → Option A
  get_elem? [] i = none
  get_elem? (x ∷ xs) zero = some x
  get_elem? (x ∷ xs) (suc i) = get_elem? xs i

  abbrev pub get_or : List A → ℕ → A → A
  get_or [] i d = d
  get_or (x ∷ xs) zero d = x
  get_or (x ∷ xs) (suc i) d = get_or xs i d

  -- A write out of bounds changes nothing.
  abbrev pub set : List A → ℕ → A → List A
  set [] i v = []
  set (x ∷ xs) zero v = v ∷ xs
  set (x ∷ xs) (suc i) v = x ∷ set xs i v

  abbrev pub take : ℕ → List A → List A
  take zero xs = []
  take (suc n) [] = []
  take (suc n) (x ∷ xs) = x ∷ take n xs

  abbrev pub drop : ℕ → List A → List A
  drop zero xs = xs
  drop (suc n) [] = []
  drop (suc n) (x ∷ xs) = drop n xs

  abbrev pub replicate : ℕ → A → List A
  replicate zero a = []
  replicate (suc n) a = a ∷ replicate n a

  -- The elements that pass a Boolean test, in order.
  abbrev pub keep : (A → Bool) → List A → List A
  keep p [] = []
  keep p (x ∷ xs) = let rest = keep p xs in if p x then x ∷ rest else rest

  abbrev pub all : (A → Bool) → List A → Bool
  all p [] = true
  all p (x ∷ xs) = p x && all p xs

  abbrev pub All {κ} : (A → Type κ) → List A → Type κ
  All P [] = Unit
  All P (x ∷ xs) = P x × All P xs

module _ {ℓ} {A : Type ℓ} where
  pub length-append : (xs ys : List A) → length (xs ++ ys) ≡ length xs + length ys
  length-append [] ys = omega arith
  length-append (x ∷ xs) ys = omega (arith, length-append xs ys)

  pub length-set : (xs : List A) (i : ℕ) (v : A) → length (set xs i v) ≡ length xs
  length-set [] i v = refl
  length-set (x ∷ xs) zero v = refl
  length-set (x ∷ xs) (suc i) v = ap suc (length-set xs i v)

  pub length-replicate : (n : ℕ) (a : A) → length (replicate n a) ≡ n
  length-replicate zero a = refl
  length-replicate (suc n) a = ap suc (length-replicate n a)

  pub length-keep : (p : A → Bool) (xs : List A) → length (keep p xs) ≤ length xs
  length-keep p [] = omega arith
  length-keep p (x ∷ xs) = ground (arith, length-keep p xs)

  pub length-take : (n : ℕ) (xs : List A) → length (take n xs) ≡ min n (length xs)
  length-take zero xs = omega arith
  length-take (suc n) [] = omega arith
  length-take (suc n) (x ∷ xs) = omega (arith, length-take n xs)

  pub length-map {κ} : {B : Type κ} (f : A → B) (xs : List A) → length (map f xs) ≡ length xs
  length-map f [] = refl
  length-map f (x ∷ xs) = ap suc (length-map f xs)

  -- A write just behind a prefix lands on the first element of the rest.
  pub set-append :
      (xs : List A) (y v : A) (ys : List A) → set (xs ++ y ∷ ys) (length xs) v ≡ xs ++ v ∷ ys
  set-append [] y v ys = refl
  set-append (x ∷ xs) y v ys = ap (λ zs. x ∷ zs) (set-append xs y v ys)

  pub get_elem?-all :
      (p : A → Bool) (xs : List A) (i : ℕ) {x : A}
      → all p xs ≡ true
      → get_elem? xs i ≡ some x
      → p x ≡ true
  get_elem?-all p [] i h e = ground arith
  get_elem?-all p (y ∷ xs) zero h e = ground arith
  get_elem?-all p (y ∷ xs) (suc i) h e = get_elem?-all p xs i (ground arith) e

  pub get_elem?-All {κ} :
      (P : A → Type κ) (xs : List A) (i : ℕ) {x : A} → All P xs → get_elem? xs i ≡ some x → P x
  get_elem?-All P [] i h e = ground arith
  get_elem?-All P (y ∷ xs) zero h e = subst P (some-injective _ _ e) h.0
  get_elem?-All P (y ∷ xs) (suc i) h e = get_elem?-All P xs i h.1 e

  pub length-nil : (xs : List A) → length xs ≡ 0 → xs ≡ []
  length-nil [] h = refl
  length-nil (x ∷ xs) h = absurd (omega arith)

  pub get_elem?-append_length :
      (xs : List A) (y : A) (n : ℕ) → length xs ≡ n → get_elem? (xs ++ y ∷ []) n ≡ some y
  get_elem?-append_length [] y zero h = refl
  get_elem?-append_length [] y (suc n) h = absurd (omega arith)
  get_elem?-append_length (x ∷ xs) y zero h = absurd (omega arith)
  get_elem?-append_length (x ∷ xs) y (suc n) h = get_elem?-append_length xs y n (omega arith)

  pub All-append {κ} : (P : A → Type κ) (xs ys : List A) → All P xs → All P ys → All P (xs ++ ys)
  All-append P [] ys h k = k
  All-append P (x ∷ xs) ys h k = (h.0, All-append P xs ys h.1 k)

  pub get_elem?-map {κ} :
      {B : Type κ} (f : A → B) (xs : List A) (i : ℕ) {y : B}
      → get_elem? (map f xs) i ≡ some y
      → (x : A) × (get_elem? xs i ≡ some x) × (f x ≡ y)
  get_elem?-map f [] i e = ground arith
  get_elem?-map f (x ∷ xs) zero e = (x, refl, some-injective _ _ e)
  get_elem?-map f (x ∷ xs) (suc i) e = get_elem?-map f xs i e

  pub get_elem?-map-some {κ} :
      {B : Type κ} (f : A → B) (xs : List A) (i : ℕ) {x : A}
      → get_elem? xs i ≡ some x
      → get_elem? (map f xs) i ≡ some (f x)
  get_elem?-map-some f [] i e = ground arith
  get_elem?-map-some f (y ∷ xs) zero e = ap some (ap f (some-injective _ _ e))
  get_elem?-map-some f (y ∷ xs) (suc i) e = get_elem?-map-some f xs i e

  pub all-map {κ} :
      {B : Type κ} (f : A → B) (p : B → Bool) (xs : List A)
      → all p (map f xs) ≡ true
      → all (λ x. p (f x)) xs ≡ true
  all-map f p [] h = refl
  all-map f p (x ∷ xs) h = ground (arith, all-map f p xs)

  pub get_elem?-lt :
      (xs : List A) (i : ℕ) → ltb i (length xs) ≡ true → (x : A) × (get_elem? xs i ≡ some x)
  get_elem?-lt [] i h = ground arith
  get_elem?-lt (x ∷ xs) zero h = (x, refl)
  get_elem?-lt (x ∷ xs) (suc i) h = get_elem?-lt xs i (ground arith)

  pub lt_of_get_elem? : (xs : List A) (i : ℕ) {x : A} → get_elem? xs i ≡ some x → i < length xs
  lt_of_get_elem? [] i e = ground arith
  lt_of_get_elem? (y ∷ xs) zero e = omega arith
  lt_of_get_elem? (y ∷ xs) (suc i) e = omega (arith, lt_of_get_elem? xs i e)

  pub get_or-get_elem? :
      (xs : List A) (i : ℕ) (d : A) {x : A} → get_elem? xs i ≡ some x → get_or xs i d ≡ x
  get_or-get_elem? [] i d e = ground arith
  get_or-get_elem? (y ∷ xs) zero d e = some-injective _ _ e
  get_or-get_elem? (y ∷ xs) (suc i) d e = get_or-get_elem? xs i d e

  -- Two functions that agree along a list agree on each of its elements.
  pub map-agree_at {κ} :
      {B : Type κ} (f g : A → B) (xs : List A) (k : ℕ) {x : A}
      → map f xs ≡ map g xs
      → get_elem? xs k ≡ some x
      → f x ≡ g x
  map-agree_at f g xs k h e = some-injective _ _ (
      sym (get_elem?-map-some f xs k e) ∙ ap (λ ys. get_elem? ys k) h ∙ get_elem?-map-some g xs k e)
