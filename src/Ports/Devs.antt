-- ===== src/Ports/Devs.antt =====
-- The array of device names that `check_ports` of src/clib/poll_serials.c allocates and fills.
use mwptools.Common.{
  ℕ, ◌+◌, ◌≤◌, ◌<◌, ◌⊎◌, ◌≡◌, refl, ap, ◌∙◌, Bool, true, false, not, ◌&&◌, Option, none, some, List,
  [], ◌∷◌, ◌++◌, map, keep, All, length, set, drop, ltb, if◌then◌else◌, arith, length-append,
  set-append, Bool-cases, inl, inr,
}
use mathlib.Core.List.{append_assoc, append-nil}
use mwptools.Common.Result.{Result, ok, fault, past_end, ◌>>=◌}

-- `devs`, a NULL pointer being `none`, and the index `j` of the next write.
pub record Devs : Type 0 where
  pub slots : List (Option (List ℕ))
  pub j : ℕ

-- `devs[j] = element; j++;`
abbrev pub store : List ℕ → Devs → Result Devs
store element d =
    if ltb d.j (length d.slots)
    then ok (record { slots = set d.slots d.j (some element); j = d.j + 1 })
    else fault past_end

-- One pass over names or numbers of devices. The first argument gives what one of them adds, if
-- anything.
pub fill : {A : Type 0} → (A → Option (Result (List ℕ))) → List A → Devs → Result Devs
fill element [] d = ok d
fill element (name ∷ names) d = elim (element name) [
  | none ↦ fill element names d
  | some r ↦ r >>= λ e. store e d >>= λ d'. fill element names d'
]

-- A name that passes the test adds its path, and another adds nothing.
abbrev pub Adds :
    {A : Type 0} → (A → Option (Result (List ℕ))) → (A → Bool) → (A → List ℕ) → A → Type 0
Adds element test path name = element name ≡ (if test name then some (ok (path name)) else none)

abbrev pub paths : {A : Type 0} → (A → Bool) → (A → List ℕ) → List A → List (Option (List ℕ))
paths test path names = map (λ name. some (path name)) (keep test names)

-- The array with a filled part `p`, `r` being the rest.
abbrev pub filled : List (Option (List ℕ)) → List (Option (List ℕ)) → Devs
filled p r = record { slots = p ++ r; j = length p }

pub store-filled :
    (e : List ℕ) (x : Option (List ℕ)) (p r : List (Option (List ℕ)))
    → store e (filled p (x ∷ r)) ≡ ok (filled (p ++ some e ∷ []) r)
store-filled e x p r =
    let room : ltb (length p) (length (p ++ x ∷ r)) ≡ true =
      ground (arith, length-append p (x ∷ r)) in
    let one : length (p ++ some e ∷ []) ≡ length p + 1 = length-append p (some e ∷ []) in
    rw (room, set-append p x (some e) r, append_assoc p (some e ∷ []) r, one) refl

store-full : (e : List ℕ) (p : List (Option (List ℕ))) → store e (filled p []) ≡ fault past_end
store-full e p =
    rw append-nil (let full : ltb (length p) (length p) ≡ false = ground arith in rw full refl)

module _ {A : Type 0} (element : A → Option (Result (List ℕ))) (test : A → Bool)
    (path : A → List ℕ) where
  -- A pass that adds no more paths than there is room for.
  pub fill-fits :
      (names : List A) (p r : List (Option (List ℕ)))
      → All (Adds element test path) names
      → length (keep test names) ≤ length r
      → fill element names (filled p r)
        ≡ ok (filled (p ++ paths test path names) (drop (length (keep test names)) r))
  unfolding fill
  fill-fits [] p r h fits = rw append-nil refl
  fill-fits (name ∷ names) p [] h fits = elim (Bool-cases (test name)) [
    | inr miss ↦ rw (fill, h.0, miss) (fill-fits names p [] h.1 (ground (arith, fits)))
    | inl hit ↦ absurd (ground (arith, fits))
  ]
  fill-fits (name ∷ names) p (x ∷ r) h fits = elim (Bool-cases (test name)) [
    | inr miss ↦ rw (fill, h.0, miss) (fill-fits names p (x ∷ r) h.1 (ground (arith, fits)))
    | inl hit ↦
        rw (fill, h.0, hit, store-filled (path name) x p r)
          (fill-fits names (p ++ some (path name) ∷ []) r h.1 (ground (arith, fits))
            ∙ ap (λ q. ok (filled q (drop (length (keep test names)) r)))
                (append_assoc p (some (path name) ∷ []) (paths test path names)))
  ]

  -- A pass that adds more.
  pub fill-full :
      (names : List A) (p r : List (Option (List ℕ)))
      → All (Adds element test path) names
      → length r < length (keep test names)
      → fill element names (filled p r) ≡ fault past_end
  unfolding fill
  fill-full [] p r h more = absurd (omega arith)
  fill-full (name ∷ names) p [] h more = elim (Bool-cases (test name)) [
    | inr miss ↦ rw (fill, h.0, miss) (fill-full names p [] h.1 (ground (arith, more)))
    | inl hit ↦ rw (fill, h.0, hit, store-full (path name) p) refl
  ]
  fill-full (name ∷ names) p (x ∷ r) h more = elim (Bool-cases (test name)) [
    | inr miss ↦ rw (fill, h.0, miss) (fill-full names p (x ∷ r) h.1 (ground (arith, more)))
    | inl hit ↦
        rw (fill, h.0, hit, store-filled (path name) x p r)
          (fill-full names (p ++ some (path name) ∷ []) r h.1 (ground (arith, more)))
  ]

-- A name that passes the second test, and not the first, cannot be written; the first adds its path.
abbrev pub AddsOrFails :
    {A : Type 0}
    → (A → Option (Result (List ℕ)))
    → (A → Bool)
    → (A → Bool)
    → (A → List ℕ)
    → A
    → Type 0
AddsOrFails element test bad path name = element name ≡ (
    if test name then some (ok (path name)) else if bad name then some (fault past_end) else none)

store-outcome :
    (e : List ℕ) (d : Devs) → ((d' : Devs) × (store e d ≡ ok d')) ⊎ (store e d ≡ fault past_end)
store-outcome e d = elim (Bool-cases (ltb d.j (length d.slots))) [
  | inl room ↦ inl (record { slots = set d.slots d.j (some e); j = d.j + 1 }, rw room refl)
  | inr full ↦ inr (rw full refl)
]

-- A pass that meets a name that cannot be written.
pub fill-fault :
    {A : Type 0} (element : A → Option (Result (List ℕ))) (test bad : A → Bool) (path : A → List ℕ)
    (names : List A) (d : Devs)
    → All (AddsOrFails element test bad path) names
    → 1 ≤ length (keep (λ name. not (test name) && bad name) names)
    → fill element names d ≡ fault past_end
unfolding fill
fill-fault element test bad path [] d h some_bad = absurd (omega arith)
fill-fault element test bad path (name ∷ names) d h some_bad = elim (Bool-cases (test name)) [
  | inl adds ↦ elim (store-outcome (path name) d) [
    | inl (d', e) ↦
        rw (fill, h.0, adds, e)
          (fill-fault element test bad path names d' h.1 (ground (arith, some_bad)))
    | inr e ↦ rw (fill, h.0, adds, e) refl
  ]
  | inr skips ↦ elim (Bool-cases (bad name)) [
    | inl fails ↦ rw (fill, h.0, skips, fails) refl
    | inr adds_none ↦
        rw (fill, h.0, skips, adds_none)
          (fill-fault element test bad path names d h.1 (ground (arith, some_bad)))
  ]
]
