-- ===== src/ReadSb/Tables/AircraftsUpdate.antt =====
-- The descriptor of `AircraftsUpdate` in src/mwp/readsb.pb-c.c, its struct in src/mwp/readsb.pb-c.h
-- and its declaration in src/samples/adsb-extra/readsb.proto.
use mwptools.Common.{ℕ, String, none, some, List, [], ◌∷◌}
use mwptools.ReadSb.Descriptor.{
  Field, field, Range, range, Descriptor, Declared, declare, Table, message, repeated, single,
  uint64,
}

unfoldable pub field_descriptors : List Field
field_descriptors =
    field "now" 1 single uint64 none "now" none none
    ∷ field "messages" 2 single uint64 none "messages" none none
    ∷ field "history" 14 repeated message (some "n_history") "history"
        (some "aircraft_history__descriptor") none
    ∷ field "aircraft" 15 repeated message (some "n_aircraft") "aircraft"
        (some "aircraft_meta__descriptor") none
    ∷ []

unfoldable pub field_indices_by_name : List ℕ
field_indices_by_name = 3 ∷ 2 ∷ 1 ∷ 0 ∷ []

unfoldable pub number_ranges : List Range
number_ranges = range 1 0 ∷ range 14 2 ∷ range 0 4 ∷ []

unfoldable pub descriptor : Descriptor
unfolding field_descriptors field_indices_by_name number_ranges
descriptor = record {
  name = "AircraftsUpdate";
  short_name = "AircraftsUpdate";
  c_name = "AircraftsUpdate";
  package_name = "";
  n_fields = 4;
  fields = field_descriptors;
  fields_sorted_by_name = field_indices_by_name;
  n_field_ranges = 2;
  field_ranges = number_ranges;
}

-- The members of the struct behind `base`.
unfoldable pub members : List String
members = "now" ∷ "messages" ∷ "n_history" ∷ "history" ∷ "n_aircraft" ∷ "aircraft" ∷ []

unfoldable pub declared : List Declared
declared =
    declare "now" 1 single uint64
    ∷ declare "messages" 2 single uint64
    ∷ declare "history" 14 repeated message
    ∷ declare "aircraft" 15 repeated message
    ∷ []

-- The descriptor beside the struct and the declaration that it must agree with.
unfoldable pub table : Table
unfolding descriptor members declared
table = record { descriptor = descriptor; members = members; declared = declared }
