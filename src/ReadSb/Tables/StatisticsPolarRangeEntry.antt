-- ===== src/ReadSb/Tables/StatisticsPolarRangeEntry.antt =====
-- The descriptor of `Statistics__PolarRangeEntry` in src/mwp/readsb.pb-c.c, its struct in src/mwp/readsb.pb-c.h
-- and its declaration in src/samples/adsb-extra/readsb.proto.
use mwptools.Common.{ℕ, String, none, List, [], ◌∷◌}
use mwptools.ReadSb.Descriptor.{
  Field, field, Range, range, Descriptor, Declared, declare, Table, single, uint32,
}

unfoldable pub field_descriptors : List Field
field_descriptors =
    field "key" 1 single uint32 none "key" none none
    ∷ field "value" 2 single uint32 none "value" none none
    ∷ []

unfoldable pub field_indices_by_name : List ℕ
field_indices_by_name = 0 ∷ 1 ∷ []

unfoldable pub number_ranges : List Range
number_ranges = range 1 0 ∷ range 0 2 ∷ []

unfoldable pub descriptor : Descriptor
unfolding field_descriptors field_indices_by_name number_ranges
descriptor = record {
  name = "Statistics.PolarRangeEntry";
  short_name = "PolarRangeEntry";
  c_name = "Statistics__PolarRangeEntry";
  package_name = "";
  n_fields = 2;
  fields = field_descriptors;
  fields_sorted_by_name = field_indices_by_name;
  n_field_ranges = 1;
  field_ranges = number_ranges;
}

-- The members of the struct behind `base`.
unfoldable pub members : List String
members = "key" ∷ "value" ∷ []

unfoldable pub declared : List Declared
declared = declare "key" 1 single uint32 ∷ declare "value" 2 single uint32 ∷ []

-- The descriptor beside the struct and the declaration that it must agree with.
unfoldable pub table : Table
unfolding descriptor members declared
table = record { descriptor = descriptor; members = members; declared = declared }
