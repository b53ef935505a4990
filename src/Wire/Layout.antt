-- ===== src/Wire/Layout.antt =====
-- Packed structs: their fields and their size.
use mwptools.Common.{ℕ, zero, suc, ◌+◌, Bool, true, false, Option, String, List, [], ◌∷◌, ◌++◌}

-- An integer type: whether it is signed, and its number of bytes.
pub record Scalar : Type 0 where
  pub signed : Bool
  pub bytes : ℕ

abbrev pub u8 : Scalar
u8 = record { signed = false; bytes = 1 }

abbrev pub u16 : Scalar
u16 = record { signed = false; bytes = 2 }

abbrev pub u32 : Scalar
u32 = record { signed = false; bytes = 4 }

abbrev pub i8 : Scalar
i8 = record { signed = true; bytes = 1 }

abbrev pub i16 : Scalar
i16 = record { signed = true; bytes = 2 }

abbrev pub i32 : Scalar
i32 = record { signed = true; bytes = 4 }

-- `count` is 1 for a field that is no array.
pub record Field : Type 0 where
  pub name : String
  pub scalar : Scalar
  pub count : ℕ

abbrev pub field : String → Scalar → Field
field name scalar = record { name = name; scalar = scalar; count = 1 }

-- A struct: its tag, the tag and the name of the `typedef` behind it, and its fields. `items` is the
-- struct of which an array without a length ends it, if any.
pub record Struct : Type 0 where
  pub tag : String
  pub typedef_tag : String
  pub name : String
  pub fields : List Field
  pub items : Option String

-- The struct of a binding or of src/common/mspmsg.vala: a name and fields; an array of structs at the end has a
-- length there.
pub record Binding : Type 0 where
  pub name : String
  pub fields : List Field
  pub items : Option (String × ℕ)

abbrev pub scalars_of : ℕ → Scalar → List Scalar
scalars_of zero c = []
scalars_of (suc n) c = c ∷ scalars_of n c

-- The integers of the fields, an array's one by one.
abbrev pub scalars : List Field → List Scalar
scalars [] = []
scalars (f ∷ fs) = scalars_of f.count f.scalar ++ scalars fs

-- `sizeof`
abbrev pub size : List Scalar → ℕ
size [] = 0
size (c ∷ cs) = c.bytes + size cs

-- A union, or what is declared as its binding: the type and the name of each struct in it, and the
-- number of bytes of the array at its end.
pub record Buffer : Type 0 where
  pub members : List (String × String)
  pub bytes : ℕ
