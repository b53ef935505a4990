-- ===== src/Wire/Declared.antt =====
-- The structs that the bindings and src/common/mspmsg.vala declare, beside those of src/common/mspmsg.h and
-- src/samples/ublox-test/ublox.h.
use text.Mathlib.Text.{◌==◌ as str_eq}
use mwptools.Common.{
  ℕ, ◌<◌, ◌≡◌, arith, refl, Bool, ◌||◌, Option, none, some, String, List, [], ◌∷◌, ◌++◌, map,
  get_elem?, if◌then◌else◌, map-agree_at,
}
use mwptools.Wire.Layout.{Field, Struct, Binding, scalars, size}
use mwptools.Wire.Msp.{first_structs}
use mwptools.Wire.MspMore.{more_structs}
use mwptools.Wire.MspBinding.{first_bindings}
use mwptools.Wire.MspBindingMore.{more_bindings}
use mwptools.Wire.Ublox
use mwptools.Wire.Ublox.{ublox_structs}
use mwptools.Wire.UbloxBinding
use mwptools.Wire.UbloxBinding.{ublox_bindings}
use mwptools.Wire.MspVala.{first_vala_structs}
use mwptools.Wire.MspValaMore.{more_vala_structs}
use mwptools.Wire.Sizes.{msizes}

unfoldable pub structs : List Struct
structs = first_structs ++ (more_structs ++ ublox_structs)

unfoldable pub bindings : List Binding
bindings =
    first_bindings
    ++ (more_bindings ++ (ublox_bindings ++ (first_vala_structs ++ more_vala_structs)))

-- `typedef struct TAG NAME`: the tag that a name stands for, if any, and the fields of a tag.
abbrev pub tag_of : List Struct → String → Option String
tag_of [] name = none
tag_of (s ∷ ss) name =
    let rest = tag_of ss name in if str_eq s.name name then some s.typedef_tag else rest

abbrev pub fields_of : List Struct → Option String → Option (List Field)
fields_of ss none = none
fields_of [] (some tag) = none
fields_of (s ∷ ss) (some tag) =
    let rest = fields_of ss (some tag) in if str_eq s.tag tag then some s.fields else rest

-- The fields of the struct that a name stands for; none where the name is not defined, or its struct
-- is never completed.
unfoldable pub layout_of : String → Option (List Field)
unfolding structs first_structs more_structs ublox_structs
layout_of name = fields_of structs (tag_of structs name)

-- The structs that C does not know under the name that Vala uses.
abbrev pub is_unknown : String → Bool
is_unknown name =
    (str_eq name "MSP_RC_TUNING_CF" || str_eq name "MSP_WP_GETINFO")
    || (str_eq name "MSP_N32_WP" || (str_eq name "LTM_OFRAME" || str_eq name "CF_MODE_RANGES"))

bindings_agree :
    map (λ b. layout_of b.name) bindings
    ≡ map (λ b. if is_unknown b.name then none else some b.fields) bindings
unfolding layout_of structs bindings first_structs more_structs ublox_structs first_bindings
    more_bindings ublox_bindings first_vala_structs more_vala_structs
bindings_agree = refl

-- Every struct that mspmsg.vapi, ublox.vapi or mspmsg.vala declares, apart from `ublox_buffer`, is a
-- complete struct in C under that name, with the same integer fields, of the same types, in the same
-- order, but for five names: C has MSP_RC_TUNING_FC, not MSP_RC_TUNING_CF; the struct of MSP_WP_GETINFO
-- is never defined; and MSP_N32_WP, LTM_OFRAME and CF_MODE_RANGES are in mspmsg.vala only. An array of
-- structs behind the fields is left aside. The binding of the union `ublox_buffer` has its members, of
-- the same types, in the same order, and an array of fewer bytes.
pub bindings-layout_of :
    (k : ℕ) {b : Binding}
    → get_elem? bindings k ≡ some b
    → (layout_of b.name ≡ (if is_unknown b.name then none else some b.fields))
      × (UbloxBinding.ublox_buffer.members ≡ Ublox.ublox_buffer.members)
      × (UbloxBinding.ublox_buffer.bytes < Ublox.ublox_buffer.bytes)
bindings-layout_of k e = (
  map-agree_at (λ b. layout_of b.name) (λ b. if is_unknown b.name then none else some b.fields)
      bindings k bindings_agree e,
  refl,
  omega arith,
)

-- `sizeof` the struct of a name.
abbrev pub bytes_of : Option (List Field) → Option ℕ
bytes_of none = none
bytes_of (some fields) = some (size (scalars fields))

unfoldable pub size_of : String → Option ℕ
unfolding layout_of
size_of name = bytes_of (layout_of name)

-- The messages that have a size in `MSize` and no struct.
abbrev pub is_unstructured : String → Bool
is_unstructured name =
    (str_eq name "MSP_STATUS_EX" || str_eq name "MSP2_INAV_STATUS")
    || (str_eq name "LTM_OFRAME" || str_eq name "LTM_NFRAME")

abbrev pub expected_size : String × ℕ → Option ℕ
expected_size (name, n) =
    if is_unstructured name then none else some (if str_eq name "MSP_ANALOG2" then 24 else n)

sizes_agree : map (λ m. size_of m.0) msizes ≡ map expected_size msizes
unfolding size_of layout_of structs msizes first_structs more_structs ublox_structs
sizes_agree = refl

-- The sizes that Vala asks for, `MSize`, are those of the packed structs, but for MSP_ANALOG2, whose
-- struct has 24 bytes and not 40; four of the messages have no struct.
pub msizes-size_of :
    (k : ℕ) {m : String × ℕ} → get_elem? msizes k ≡ some m → size_of m.0 ≡ expected_size m
msizes-size_of k e = map-agree_at (λ m. size_of m.0) expected_size msizes k sizes_agree e
