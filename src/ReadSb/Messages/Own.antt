-- ===== src/ReadSb/Messages/Own.antt =====
-- That the functions of a message in src/mwp/readsb.pb-c.c work on that message, and its initial
-- values are those of its fields.
use text.Mathlib.TextEquality.{eq_iff}
use text.Mathlib.Text.{◌==◌ as str_eq}
use mathlib.Core.Option.{some-injective}
use mwptools.Common.{
  ℕ, zero, suc, ◌≡◌, refl, sym, ap, ◌∙◌, Bool, true, false, ◌&&◌, Option, none, some, String, List,
  [], ◌∷◌, map, get_elem?, if◌then◌else◌, arith, get_elem?-map-some,
}
use mwptools.Common.CString.{codes}
use mwptools.Common.Result.{ok, fault, assertion}
use mwptools.ReadSb.Descriptor.{Table}
use mwptools.ReadSb.Tables.{messages}
use mwptools.ReadSb.Tables.Enums.{enums}
use mwptools.ReadSb.Messages.{
  Initial, Functions, Message, Library, assert, get_packed_size, pack, pack_to_buffer, unpack,
  free_unpacked,
}
use mwptools.ReadSb.Messages.Initials.{initials, functions}
use mwptools.ReadSb.Messages.Defaults.{symbol, defaults}

values_agree : map (λ i. i.values) initials ≡ map defaults messages
unfolding initials messages enums
values_agree = refl

names_agree : map (λ i. codes i.descriptor) initials ≡ map symbol messages
unfolding initials messages
names_agree = refl

-- The functions of a message, if it has any, name the descriptor of its initial value.
abbrev pub is_own : Initial → Option Functions → Bool
is_own i none = true
is_own i (some f) =
    str_eq i.descriptor f.get_packed_size
    && (str_eq i.descriptor f.pack
        && (str_eq i.descriptor f.pack_to_buffer
            && (str_eq i.descriptor f.unpack && str_eq i.descriptor f.free_unpacked)))

abbrev all_own : List Initial → List (Option Functions) → Bool
all_own [] fs = true
all_own (i ∷ is) [] = false
all_own (i ∷ is) (f ∷ fs) = is_own i f && all_own is fs

functions_own : all_own initials functions ≡ true
unfolding initials functions
functions_own = refl

own-at :
    (is : List Initial) (fs : List (Option Functions)) (k : ℕ) {i : Initial} {f : Option Functions}
    → all_own is fs ≡ true
    → get_elem? is k ≡ some i
    → get_elem? fs k ≡ some f
    → is_own i f ≡ true
own-at [] fs k h e d = ground arith
own-at (i ∷ is) [] k h e d = ground arith
own-at (i ∷ is) (f ∷ fs) zero h e d = ground arith
own-at (i ∷ is) (f ∷ fs) (suc k) h e d = own-at is fs k (ground arith) e d

assert-own :
    {A M : Type 0} (expected d : String) (m : Message M) (a : A)
    → str_eq d expected ≡ true
    → assert expected m a ≡ (if str_eq m.descriptor d then ok a else fault assertion)
assert-own expected d m a h =
    ap (λ x. if str_eq m.descriptor x then ok a else fault assertion)
      (sym ((eq_iff d expected).0 h))

-- For every message of the schema that has functions of its own, and any library: a message is packed,
-- into an array or a buffer, its size is given, and it is freed, by the library's functions, exactly when
-- it has the descriptor of this message's initial value, and any other message fails the assertion; NULL
-- is freed by no call; bytes are unpacked by the same descriptor. The initial value names the descriptor
-- of the message in the schema, and gives each member the value that its field has by default: the
-- empty text, the value 0 of the field's enumeration, no submessage, an empty array with a count of 0,
-- or else 0.
pub messages-functions :
    {M H : Type 0} (lib : Library M H) (m : Message M) (bytes : List ℕ) (memory : H) (k : ℕ)
    {t : Table} {i : Initial} {f : Functions}
    → get_elem? messages k ≡ some t
    → get_elem? initials k ≡ some i
    → get_elem? functions k ≡ some (some f)
    → let own = str_eq m.descriptor i.descriptor in
      (pack lib f m ≡ (if own then ok (lib.pack m) else fault assertion))
      × (pack_to_buffer lib f m ≡ (if own then ok (lib.pack m) else fault assertion))
      × (get_packed_size lib f m ≡ (if own then ok (lib.packed_size m) else fault assertion))
      × (unpack lib f bytes ≡ lib.unpack i.descriptor bytes)
      × (free_unpacked lib f (some m) memory
          ≡ (if own then ok (lib.free_unpacked m memory) else fault assertion))
      × (free_unpacked lib f none memory ≡ ok memory)
      × (codes i.descriptor ≡ symbol t)
      × (i.values ≡ defaults t)
unfolding get_packed_size pack pack_to_buffer unpack free_unpacked
messages-functions lib m bytes memory k {t} {i} {f} at_t at_i at_f =
    let own : is_own i (some f) ≡ true = own-at initials functions k functions_own at_i at_f in
    let size : str_eq i.descriptor f.get_packed_size ≡ true = ground arith in
    let packs : str_eq i.descriptor f.pack ≡ true = ground arith in
    let buffers : str_eq i.descriptor f.pack_to_buffer ≡ true = ground arith in
    let unpacks : str_eq i.descriptor f.unpack ≡ true = ground arith in
    let frees : str_eq i.descriptor f.free_unpacked ≡ true = ground arith in
    (
      assert-own f.pack i.descriptor m (lib.pack m) packs,
      assert-own f.pack_to_buffer i.descriptor m (lib.pack m) buffers,
      assert-own f.get_packed_size i.descriptor m (lib.packed_size m) size,
      ap (λ d. lib.unpack d bytes) (sym ((eq_iff i.descriptor f.unpack).0 unpacks)),
      assert-own f.free_unpacked i.descriptor m (lib.free_unpacked m memory) frees,
      refl,
      some-injective _ _ (
          sym (get_elem?-map-some (λ i. codes i.descriptor) initials k at_i)
          ∙ ap (λ l. get_elem? l k) names_agree
          ∙ get_elem?-map-some symbol messages k at_t),
      some-injective _ _ (
          sym (get_elem?-map-some (λ i. i.values) initials k at_i)
          ∙ ap (λ l. get_elem? l k) values_agree
          ∙ get_elem?-map-some defaults messages k at_t),
    )
