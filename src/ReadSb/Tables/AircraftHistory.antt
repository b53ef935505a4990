-- ===== src/ReadSb/Tables/AircraftHistory.antt =====
-- The descriptor of `AircraftHistory` in src/mwp/readsb.pb-c.c, its struct in src/mwp/readsb.pb-c.h
-- and its declaration in src/samples/adsb-extra/readsb.proto.
use mwptools.Common.{ℕ, String, none, List, [], ◌∷◌}
use mwptools.ReadSb.Descriptor.{
  Field, field, Range, range, Descriptor, Declared, declare, Table, double, int32, single, uint32,
}

unfoldable pub field_descriptors : List Field
field_descriptors =
    field "addr" 1 single uint32 none "addr" none none
    ∷ field "alt_baro" 5 single int32 none "alt_baro" none none
    ∷ field "lat" 8 single double none "lat" none none
    ∷ field "lon" 9 single double none "lon" none none
    ∷ []

unfoldable pub field_indices_by_name : List ℕ
field_indices_by_name = 0 ∷ 1 ∷ 2 ∷ 3 ∷ []

unfoldable pub number_ranges : List Range
number_ranges = range 1 0 ∷ range 5 1 ∷ range 8 2 ∷ range 0 4 ∷ []

unfoldable pub descriptor : Descriptor
unfolding field_descriptors field_indices_by_name number_ranges
descriptor = record {
  name = "AircraftHistory";
  short_name = "AircraftHistory";
  c_name = "AircraftHistory";
  package_name = "";
  n_fields = 4;
  fields = field_descriptors;
  fields_sorted_by_name = field_indices_by_name;
  n_field_ranges = 3;
  field_ranges = number_ranges;
}

-- The members of the struct behind `base`.
unfoldable pub members : List String
members = "addr" ∷ "alt_baro" ∷ "lat" ∷ "lon" ∷ []

unfoldable pub declared : List Declared
declared =
    declare "addr" 1 single uint32
    ∷ declare "alt_baro" 5 single int32
    ∷ declare "lat" 8 single double
    ∷ declare "lon" 9 single double
    ∷ []

-- The descriptor beside the struct and the declaration that it must agree with.
unfoldable pub table : Table
unfolding descriptor members declared
table = record { descriptor = descriptor; members = members; declared = declared }
