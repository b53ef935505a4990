-- ===== src/ReadSb/Tables/Values.antt =====
-- The enumerations of src/mwp/readsb.pb-c.c: how a value is found by its number and by its name.
use mwptools.Common.{
  map-agree_at, ℕ, ◌≡◌, refl, sym, ap, ◌∙◌, Bool, true, ◌&&◌, String, some, List, map, all,
  get_elem?, get_or, length, ltb, arith, get_elem?-all, get_elem?-map, get_elem?-map-some,
  get_elem?-lt, get_or-get_elem?,
}
use mwptools.ReadSb.Descriptor.{EnumValue, EnumTable, range_index}
use mwptools.ReadSb.Descriptor.Ranges.{
  covers, is_increasing, range_index-position, position-get_elem?,
}
use mwptools.ReadSb.Tables.Enums.{enums}

abbrev as_pair : EnumValue → String × ℕ
as_pair v = (v.name, v.value)

abbrev numbers : EnumTable → List ℕ
numbers t = map (λ v. v.value) t.descriptor.values

abbrev names : EnumTable → List String
names t = map (λ v. v.name) t.descriptor.values

-- The names of the values that the index by name leads to.
abbrev led_to : EnumTable → List String
led_to t = map (λ e. get_or (names t) e.1 "") t.descriptor.values_by_name

abbrev is_consistent : EnumTable → Bool
is_consistent t =
    covers t.descriptor.value_ranges (numbers t)
    && (is_increasing (numbers t)
        && all (λ e. ltb e.1 (length t.descriptor.values)) t.descriptor.values_by_name)

enums_consistent : all is_consistent enums ≡ true
unfolding enums
enums_consistent = refl

enums_agree : map (λ t. map as_pair t.descriptor.values) enums ≡ map (λ t. t.declared) enums
unfolding enums
enums_agree = refl

enums_named : map led_to enums ≡ map (λ t. map (λ e. e.0) t.descriptor.values_by_name) enums
unfolding enums
enums_named = refl

-- For every enumeration of the schema and every value that it declares, the range table of the
-- enumeration leads the value's number to its place in the table of values, and the entry that
-- stands there has the declared name and number.
enums-declared :
    (k i : ℕ) {t : EnumTable} {d : String × ℕ}
    → get_elem? enums k ≡ some t
    → get_elem? t.declared i ≡ some d
    → (v : EnumValue) × (range_index t.descriptor.value_ranges d.1 ≡ some i)
      × (get_elem? t.descriptor.values i ≡ some v)
      × (v.name ≡ d.0)
      × (v.value ≡ d.1)
enums-declared k i {t} {d} e at =
    let ok = get_elem?-all is_consistent enums k enums_consistent e in
    let covered : covers t.descriptor.value_ranges (numbers t) ≡ true = ground arith in
    let increasing : is_increasing (numbers t) ≡ true = ground arith in
    let agree =
      map-agree_at (λ t. map as_pair t.descriptor.values) (λ t. t.declared) enums k enums_agree e in
    let (v, here, is) =
      get_elem?-map as_pair t.descriptor.values i (ap (λ ds. get_elem? ds i) agree ∙ at) in
    let there = get_elem?-map-some (λ v. v.value) t.descriptor.values i here in
    (
      v,
      range_index-position t.descriptor.value_ranges (numbers t) d.1 covered
          ∙ position-get_elem? (numbers t) i increasing (there ∙ ap (λ p. some p.1) is),
      here,
      ap (λ p. p.0) is,
      ap (λ p. p.1) is,
    )

-- Every entry of an enumeration's index by name leads to a value of the entry's name.
enums-by_name :
    (k p : ℕ) {t : EnumTable} {entry : String × ℕ}
    → get_elem? enums k ≡ some t
    → get_elem? t.descriptor.values_by_name p ≡ some entry
    → (v : EnumValue) × (get_elem? t.descriptor.values entry.1 ≡ some v) × (v.name ≡ entry.0)
enums-by_name k p {t} {entry} e at =
    let ok = get_elem?-all is_consistent enums k enums_consistent e in
    let inside : all (λ e. ltb e.1 (length t.descriptor.values)) t.descriptor.values_by_name
        ≡ true =
      ground arith in
    let (v, here) =
      get_elem?-lt t.descriptor.values entry.1
        (get_elem?-all _ t.descriptor.values_by_name p inside at) in
    let same =
      map-agree_at led_to (λ t. map (λ e. e.0) t.descriptor.values_by_name) enums k enums_named e in
    let named =
      map-agree_at (λ e. get_or (names t) e.1 "") (λ e. e.0) t.descriptor.values_by_name p same
        at in
    (
      v,
      here,
      sym (get_or-get_elem? (names t) entry.1 "" (get_elem?-map-some (λ v. v.name) _ entry.1 here))
          ∙ named,
    )

-- For every enumeration of the schema and every value that it declares, the range table of the
-- enumeration leads the value's number to its place in the table of values, and the entry that
-- stands there has the declared name and number; and every entry of the enumeration's index by name
-- leads to a value of the entry's name.
pub enums-indexed :
    (k i p : ℕ) {t : EnumTable} {d entry : String × ℕ}
    → get_elem? enums k ≡ some t
    → get_elem? t.declared i ≡ some d
    → get_elem? t.descriptor.values_by_name p ≡ some entry
    → ((v : EnumValue) × (range_index t.descriptor.value_ranges d.1 ≡ some i)
        × (get_elem? t.descriptor.values i ≡ some v)
        × (v.name ≡ d.0)
        × (v.value ≡ d.1))
      × ((v : EnumValue) × (get_elem? t.descriptor.values entry.1 ≡ some v) × (v.name ≡ entry.0))
enums-indexed k i p e at by_name = (enums-declared k i e at, enums-by_name k p e by_name)
