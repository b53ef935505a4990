-- ===== src/ReadSb/Tables/Numbers.antt =====
-- How the message descriptors of src/mwp/readsb.pb-c.c find a field by the number on the wire.
use Prim.Native.String.{◌++◌ as str_append}
use text.Mathlib.Text.{◌==◌ as str_eq}
use mwptools.Common.{
  map-agree_at, ℕ, ◌≡◌, refl, ap, ◌∙◌, Bool, true, false, not, all-map, ◌&&◌, ◌||◌, String, Option,
  none, some, List, [], ◌∷◌, map, all, get_elem?, length, ◌+◌, ◌==◌, arith, get_elem?-all,
  get_elem?-map, get_elem?-map-some,
}
use mwptools.ReadSb.Descriptor.{
  Label, single, repeated, Field, Declared, declare, Table, range_index,
}
use mwptools.ReadSb.Descriptor.Ranges.{
  covers, is_increasing, range_index-position, position-get_elem?, position-absent,
}
use mwptools.ReadSb.Tables.{messages}

-- What a descriptor says of a field, in the terms of its declaration.
abbrev pub as_declared : Field → Declared
as_declared f = declare f.name f.id f.label f.kind

abbrev pub is_member : String → List String → Bool
is_member s [] = false
is_member s (m ∷ ms) = str_eq s m || is_member s ms

-- A repeated field has a counter, which is the member `n_` and its name; a single one has none.
abbrev pub has_counter : Label → String → Option String → List String → Bool
has_counter single name none members = true
has_counter single name (some q) members = false
has_counter repeated name none members = false
has_counter repeated name (some q) members = str_eq q (str_append "n_" name) && is_member q members

-- The field is stored in the struct's member of its name.
abbrev pub is_stored : List String → Field → Bool
is_stored members f =
    str_eq f.offset f.name
    && (is_member f.offset members && has_counter f.label f.name f.quantifier members)

abbrev ids : Table → List ℕ
ids t = map (λ f. f.id) t.descriptor.fields

-- The counts, the ranges, the order and the members of one table.
abbrev is_consistent : Table → Bool
is_consistent t =
    (t.descriptor.n_fields == length t.descriptor.fields)
    && ((t.descriptor.n_field_ranges + 1 == length t.descriptor.field_ranges)
        && (covers t.descriptor.field_ranges (ids t)
            && (is_increasing (ids t) && all (is_stored t.members) t.descriptor.fields)))

messages_consistent : all is_consistent messages ≡ true
unfolding messages
messages_consistent = refl

messages_agree :
    map (λ t. map as_declared t.descriptor.fields) messages ≡ map (λ t. t.declared) messages
unfolding messages
messages_agree = refl

module _ (k : ℕ) {t : Table} (e : get_elem? messages k ≡ some t) where
  agree : map as_declared t.descriptor.fields ≡ t.declared
  agree =
      map-agree_at (λ t. map as_declared t.descriptor.fields) (λ t. t.declared) messages k
        messages_agree e

  covered : covers t.descriptor.field_ranges (ids t) ≡ true
  covered = let c = get_elem?-all is_consistent messages k messages_consistent e in ground arith

  increasing : is_increasing (ids t) ≡ true
  increasing = let c = get_elem?-all is_consistent messages k messages_consistent e in ground arith

  stored : all (is_stored t.members) t.descriptor.fields ≡ true
  stored = let c = get_elem?-all is_consistent messages k messages_consistent e in ground arith

-- For every message of the schema and every field that it declares, the number range table of the
-- message's descriptor leads the field's number to the field's place in the table of descriptors.
-- The descriptor that stands there has the declared name, number, label and type, and says that the
-- field is stored in the struct member of that name, which the struct has; a repeated field has a
-- counter member `n_` and its name in the struct, and a single field has no counter.
messages-declared :
    (k i : ℕ) {t : Table} {d : Declared}
    → get_elem? messages k ≡ some t
    → get_elem? t.declared i ≡ some d
    → (f : Field) × (range_index t.descriptor.field_ranges d.number ≡ some i)
      × (get_elem? t.descriptor.fields i ≡ some f)
      × (as_declared f ≡ d)
      × (is_stored t.members f ≡ true)
messages-declared k i {t} {d} e at =
    let (f, here, is) =
      get_elem?-map as_declared t.descriptor.fields i
        (ap (λ ds. get_elem? ds i) (agree k e) ∙ at) in
    let id_is : f.id ≡ d.number = ap (λ x. x.number) is in
    let there = get_elem?-map-some (λ f. f.id) t.descriptor.fields i here in
    (
      f,
      range_index-position t.descriptor.field_ranges (ids t) d.number (covered k e)
          ∙ position-get_elem? (ids t) i (increasing k e) (there ∙ ap some id_is),
      here,
      is,
      get_elem?-all (is_stored t.members) t.descriptor.fields i (stored k e) here,
    )

-- A number that the declaration of a message gives to no field is in no range of its descriptor.
messages-undeclared :
    (k n : ℕ) {t : Table}
    → get_elem? messages k ≡ some t
    → all (λ d. not (d.number == n)) t.declared ≡ true
    → range_index t.descriptor.field_ranges n ≡ none
messages-undeclared k n {t} e absent =
    range_index-position t.descriptor.field_ranges (ids t) n (covered k e)
    ∙ position-absent (λ f. f.id) t.descriptor.fields n
        (all-map as_declared (λ d. not (d.number == n)) t.descriptor.fields (rw (agree k e) absent))

-- For every message of the schema, the number range table of its descriptor finds exactly the numbers
-- that the schema gives to its fields. The number of a declared field leads to the field's place in
-- the table of descriptors; the descriptor that stands there has the declared name, number, label and
-- type, and says that the field is stored in the struct member of that name, which the struct has; a
-- repeated field has a counter member `n_` and its name in the struct, and a single field has none. A
-- number that no field has is in no range.
pub messages-numbered :
    (k i n : ℕ) {t : Table} {d : Declared}
    → get_elem? messages k ≡ some t
    → get_elem? t.declared i ≡ some d
    → all (λ d. not (d.number == n)) t.declared ≡ true
    → ((f : Field) × (range_index t.descriptor.field_ranges d.number ≡ some i)
        × (get_elem? t.descriptor.fields i ≡ some f)
        × (as_declared f ≡ d)
        × (is_stored t.members f ≡ true))
      × (range_index t.descriptor.field_ranges n ≡ none)
messages-numbered k i n e at absent = (messages-declared k i e at, messages-undeclared k n e absent)
