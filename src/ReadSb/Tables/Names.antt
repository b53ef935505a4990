-- ===== src/ReadSb/Tables/Names.antt =====
-- The tables of src/mwp/readsb.pb-c.c that list the fields of a message in the order of their names.
use mwptools.Common.{
  ℕ, zero, suc, ◌<◌, ◌≡◌, refl, ap, ◌∙◌, Bool, true, ◌&&◌, String, some, List, [], ◌∷◌, map, all,
  get_elem?, get_or, length, ltb, ◌==◌, arith, &&-true, get_elem?-all, get_elem?-map-some,
  get_or-get_elem?, ==_iff, false, ◌||◌, get_elem?-lt, lt_of_get_elem?, Bool-cases, inl, inr,
}
use mwptools.ReadSb.Descriptor.{Field, Descriptor, Table}
use mwptools.ReadSb.Descriptor.Order.{strcmp_ltb, is_ascending, is_ascending-lt}
use mwptools.ReadSb.Tables.{messages}

abbrev contains : ℕ → List ℕ → Bool
contains n [] = false
contains n (x ∷ xs) = x == n || contains n xs

-- The list has every number below `n`.
abbrev lists_below : ℕ → List ℕ → Bool
lists_below zero xs = true
lists_below (suc n) xs = contains n xs && lists_below n xs

contains-get_elem? :
    (n : ℕ) (xs : List ℕ) → contains n xs ≡ true → (p : ℕ) × (get_elem? xs p ≡ some n)
contains-get_elem? n [] h = ground arith
contains-get_elem? n (x ∷ xs) h = elim (Bool-cases (x == n)) [
  | inl p ↦ (0, ap some ((==_iff x n).0 p))
  | inr p ↦ let (q, e) = contains-get_elem? n xs (ground arith) in (suc q, e)
]

lists_below-get_elem? :
    (n : ℕ) (xs : List ℕ) (i : ℕ)
    → lists_below n xs ≡ true
    → i < n
    → (p : ℕ) × (get_elem? xs p ≡ some i)
lists_below-get_elem? zero xs i h lt = absurd (omega arith)
lists_below-get_elem? (suc n) xs i h lt =
    let (here, below) = &&-true (contains n xs) (lists_below n xs) h in
    elim (Bool-cases (i == n)) [
      | inl p ↦ contains-get_elem? i xs (rw ((==_iff i n).0 p) here)
      | inr p ↦ lists_below-get_elem? n xs i below (ground arith)
    ]

-- The names that a list of indices leads to.
abbrev pick : List String → List ℕ → List String
pick names index = map (λ i. get_or names i "") index

pick-lt :
    (names : List String) (index : List ℕ) (i j a b : ℕ) {s t : String}
    → is_ascending (pick names index) ≡ true
    → i < j
    → get_elem? index i ≡ some a
    → get_elem? index j ≡ some b
    → get_elem? names a ≡ some s
    → get_elem? names b ≡ some t
    → strcmp_ltb s t ≡ true
pick-lt names index i j a b {s} {t} h lt at_i at_j at_a at_b =
    let named = λ (k : ℕ). get_or names k "" in
    is_ascending-lt (pick names index) i j h lt
      (get_elem?-map-some named index i at_i ∙ ap some (get_or-get_elem? names a "" at_a))
      (get_elem?-map-some named index j at_j ∙ ap some (get_or-get_elem? names b "" at_b))

abbrev names_of : Table → List String
names_of t = map (λ f. f.name) t.descriptor.fields

abbrev is_name_index : Table → Bool
is_name_index t =
    is_ascending (pick (names_of t) t.descriptor.fields_sorted_by_name)
    && (all (λ i. ltb i (length t.descriptor.fields)) t.descriptor.fields_sorted_by_name
        && ((length t.descriptor.fields_sorted_by_name == t.descriptor.n_fields)
            && lists_below (length t.descriptor.fields) t.descriptor.fields_sorted_by_name))

messages_indexed : all is_name_index messages ≡ true
unfolding messages
messages_indexed = refl

-- Two entries of a message's index by name lead to fields of the message, and the names of these
-- fields are in the order of the entries, by `strcmp`: no two fields have one name.
messages-sorted_by_name :
    (k i j : ℕ) {t : Table} {a b : ℕ}
    → get_elem? messages k ≡ some t
    → i < j
    → get_elem? t.descriptor.fields_sorted_by_name i ≡ some a
    → get_elem? t.descriptor.fields_sorted_by_name j ≡ some b
    → (f g : Field) × (get_elem? t.descriptor.fields a ≡ some f)
      × (get_elem? t.descriptor.fields b ≡ some g)
      × (strcmp_ltb f.name g.name ≡ true)
messages-sorted_by_name k i j {t} {a} {b} e lt at_i at_j =
    let d : Descriptor = t.descriptor in
    let ok = get_elem?-all is_name_index messages k messages_indexed e in
    let (ascending, rest) =
      &&-true (is_ascending (pick (names_of t) t.descriptor.fields_sorted_by_name)) _ ok in
    let below : all (λ i. ltb i (length d.fields)) d.fields_sorted_by_name ≡ true = ground arith in
    let (f, at_a) =
      get_elem?-lt d.fields a (get_elem?-all _ d.fields_sorted_by_name i below at_i) in
    let (g, at_b) =
      get_elem?-lt d.fields b (get_elem?-all _ d.fields_sorted_by_name j below at_j) in
    (
      f,
      g,
      at_a,
      at_b,
      pick-lt (names_of t) d.fields_sorted_by_name i j a b ascending lt at_i at_j
          (get_elem?-map-some (λ f. f.name) d.fields a at_a)
          (get_elem?-map-some (λ f. f.name) d.fields b at_b),
    )

-- Every field of a message stands in its index by name, which has as many entries as the message
-- has fields.
messages-listed_by_name :
    (k i : ℕ) {t : Table} {f : Field}
    → get_elem? messages k ≡ some t
    → get_elem? t.descriptor.fields i ≡ some f
    → (length t.descriptor.fields_sorted_by_name ≡ t.descriptor.n_fields)
      × (p : ℕ) × (get_elem? t.descriptor.fields_sorted_by_name p ≡ some i)
messages-listed_by_name k i {t} {f} e at =
    let d : Descriptor = t.descriptor in
    let ok = get_elem?-all is_name_index messages k messages_indexed e in
    let below : lists_below (length d.fields) d.fields_sorted_by_name ≡ true = ground arith in
    let (p, found) =
      lists_below-get_elem? (length d.fields) d.fields_sorted_by_name i below
        (lt_of_get_elem? d.fields i at) in
    (ground arith, p, found)

-- Two entries of a message's index by name lead to fields of the message, and the names of these
-- fields are in the order of the entries, by `strcmp`: no two fields have one name. The index has as
-- many entries as the message has fields, and every field of the message stands in it.
pub messages-by_name :
    (k i j n : ℕ) {t : Table} {a b : ℕ} {h : Field}
    → get_elem? messages k ≡ some t
    → i < j
    → get_elem? t.descriptor.fields_sorted_by_name i ≡ some a
    → get_elem? t.descriptor.fields_sorted_by_name j ≡ some b
    → get_elem? t.descriptor.fields n ≡ some h
    → ((f g : Field) × (get_elem? t.descriptor.fields a ≡ some f)
        × (get_elem? t.descriptor.fields b ≡ some g)
        × (strcmp_ltb f.name g.name ≡ true))
      × (length t.descriptor.fields_sorted_by_name ≡ t.descriptor.n_fields)
      × (p : ℕ) × (get_elem? t.descriptor.fields_sorted_by_name p ≡ some n)
messages-by_name k i j n e lt at_i at_j at =
    let (size, p, listed) = messages-listed_by_name k n e at in
    (messages-sorted_by_name k i j e lt at_i at_j, size, p, listed)
