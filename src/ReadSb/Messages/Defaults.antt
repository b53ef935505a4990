-- ===== src/ReadSb/Messages/Defaults.antt =====
-- What a descriptor of src/mwp/readsb.pb-c.c is called, and the values its members start with.
use text.Mathlib.Text.{◌==◌ as str_eq}
use mwptools.Common.{
  ℕ, Bool, false, ◌&&◌, Option, none, some, String, List, [], ◌∷◌, ◌++◌, map, leb, ◌==◌,
  if◌then◌else◌,
}
use mwptools.Common.CString.{codes, lower, str_equal}
use mwptools.ReadSb.Descriptor.{
  Label, single, repeated, FieldType, Field, Table, EnumValue, EnumTable,
}
use mwptools.ReadSb.Tables.Enums.{enums}

-- The name of a descriptor: that of the C type in small letters, a `_` in front of a capital letter
-- behind a small one.
abbrev pub is_capital : ℕ → Bool
is_capital c = leb b'A' c && leb c b'Z'

abbrev pub is_small : ℕ → Bool
is_small c = leb b'a' c && leb c b'z'

abbrev pub snake : Bool → List ℕ → List ℕ
snake behind_small [] = []
snake behind_small (c ∷ s) =
    let rest = lower c ∷ snake (is_small c) s in
    if behind_small && is_capital c then b'_' ∷ rest else rest

abbrev pub symbol : Table → List ℕ
symbol t = snake false (codes t.descriptor.c_name) ++ codes "__descriptor"

-- The C name of the value 0 of the enumeration of a descriptor.
abbrev pub zero_name : List EnumValue → String
zero_name [] = ""
zero_name (v ∷ vs) = let rest = zero_name vs in if v.value == 0 then v.c_name else rest

abbrev pub zero_of : List EnumTable → List ℕ → String
zero_of [] s = ""
zero_of (e ∷ es) s =
    let rest = zero_of es s in
    if str_equal (snake false (codes e.descriptor.c_name) ++ codes "__descriptor") s
    then zero_name e.descriptor.values
    else rest

abbrev pub enum_default : Option String → String
unfolding enums
enum_default none = ""
enum_default (some d) = zero_of enums (codes d)

-- The value that a member starts with, from its field.
abbrev pub kind_default : Field → FieldType → String
unfolding enums
kind_default f FieldType.bool = "0"
kind_default f FieldType.double = "0"
kind_default f FieldType.enumeration = enum_default f.descriptor
kind_default f FieldType.float = "0"
kind_default f FieldType.int32 = "0"
kind_default f FieldType.message = "NULL"
kind_default f FieldType.text = "(char *)protobuf_c_empty_string"
kind_default f FieldType.uint32 = "0"
kind_default f FieldType.uint64 = "0"

abbrev pub label_default : Field → Label → String
label_default f single = kind_default f f.kind
label_default f repeated = "NULL"

abbrev pub is_named : String → Option String → Bool
is_named s none = false
is_named s (some t) = str_eq s t

abbrev pub default_of : List Field → String → String
default_of [] member = ""
default_of (f ∷ fs) member =
    let rest = default_of fs member in
    if is_named member f.quantifier
    then "0"
    else if str_eq f.offset member
    then label_default f f.label
    else rest

abbrev pub defaults : Table → List String
defaults t = map (default_of t.descriptor.fields) t.members
