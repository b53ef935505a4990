-- ===== src/ReadSb/Descriptor.antt =====
-- The descriptor types that src/mwp/readsb.pb-c.c fills in for libprotobuf-c, and how their tables
-- are read. A C name (a member, a descriptor) is its text; the pointers to the init functions, the
-- magic numbers, the sizes and the reserved members are left out.
pub mod Ranges
pub mod Order
use mwptools.Common.{
  ℕ, zero, suc, ◌+◌, ◌-◌, Bool, true, false, ◌&&◌, Option, none, some, String, List, [], ◌∷◌, ◌++◌,
  map, length, get_elem?, all, ltb, leb, ◌==◌, if◌then◌else◌,
}

pub data Label : Type 0 where
  single repeated : Label

pub data FieldType : Type 0 where
  bool double enumeration float int32 message text uint32 uint64 : FieldType

-- `ProtobufCFieldDescriptor`; the quantifier is the member that holds the count of a repeated field.
pub record Field : Type 0 where
  pub name : String
  pub id : ℕ
  pub label : Label
  pub kind : FieldType
  pub quantifier : Option String
  pub offset : String
  pub descriptor : Option String
  pub default_value : Option String

abbrev pub field :
    String → ℕ → Label → FieldType → Option String → String → Option String → Option String → Field
field n i l k q o d v = record {
  name = n;
  id = i;
  label = l;
  kind = k;
  quantifier = q;
  offset = o;
  descriptor = d;
  default_value = v;
}

-- `ProtobufCIntRange`
pub record Range : Type 0 where
  pub start_value : ℕ
  pub orig_index : ℕ

abbrev pub range : ℕ → ℕ → Range
range s o = record { start_value = s; orig_index = o }

-- `ProtobufCMessageDescriptor`
pub record Descriptor : Type 0 where
  pub name : String
  pub short_name : String
  pub c_name : String
  pub package_name : String
  pub n_fields : ℕ
  pub fields : List Field
  pub fields_sorted_by_name : List ℕ
  pub n_field_ranges : ℕ
  pub field_ranges : List Range

-- A field as the .proto file declares it.
pub record Declared : Type 0 where
  pub name : String
  pub number : ℕ
  pub label : Label
  pub kind : FieldType

abbrev pub declare : String → ℕ → Label → FieldType → Declared
declare n i l k = record { name = n; number = i; label = l; kind = k }

-- A descriptor with the struct's members and the declaration that it must agree with.
pub record Table : Type 0 where
  pub descriptor : Descriptor
  pub members : List String
  pub declared : List Declared

-- `ProtobufCEnumValue`
pub record EnumValue : Type 0 where
  pub name : String
  pub c_name : String
  pub value : ℕ

abbrev pub value : String → String → ℕ → EnumValue
value n c v = record { name = n; c_name = c; value = v }

-- `ProtobufCEnumDescriptor`
pub record EnumDescriptor : Type 0 where
  pub name : String
  pub short_name : String
  pub c_name : String
  pub package_name : String
  pub values : List EnumValue
  pub values_by_name : List (String × ℕ)
  pub value_ranges : List Range

pub record EnumTable : Type 0 where
  pub descriptor : EnumDescriptor
  pub declared : List (String × ℕ)

-- How a range table is read: a range starts at its number and its index, and is as long as the next
-- entry's index is beyond its own; the last entry only closes the table.
pub range_from : Range → List Range → ℕ → Option ℕ
range_from r [] n = none
range_from r (s ∷ rs) n =
    let rest = range_from s rs n in
    if leb r.start_value n && ltb n (r.start_value + (s.orig_index - r.orig_index))
    then some (r.orig_index + (n - r.start_value))
    else rest

pub range_index : List Range → ℕ → Option ℕ
unfolding range_from
range_index [] n = none
range_index (r ∷ rs) n = range_from r rs n

abbrev pub shift : ℕ → Option ℕ → Option ℕ
shift k none = none
shift k (some i) = some (k + i)

-- The first place of a number in a list.
pub position : ℕ → List ℕ → Option ℕ
position n [] = none
position n (x ∷ xs) = let rest = position n xs in if x == n then some 0 else shift 1 rest
