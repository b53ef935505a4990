-- ===== src/ReadSb/Tables/Statistics.antt =====
-- The descriptor of `Statistics` in src/mwp/readsb.pb-c.c, its struct in src/mwp/readsb.pb-c.h
-- and its declaration in src/samples/adsb-extra/readsb.proto.
use mwptools.Common.{ℕ, String, none, some, List, [], ◌∷◌}
use mwptools.ReadSb.Descriptor.{
  Field, field, Range, range, Descriptor, Declared, declare, Table, message, repeated, single,
}

unfoldable pub field_descriptors : List Field
field_descriptors =
    field "latest" 1 single message none "latest" (some "statistic_entry__descriptor") none
    ∷ field "last_1min" 2 single message none "last_1min" (some "statistic_entry__descriptor") none
    ∷ field "last_5min" 3 single message none "last_5min" (some "statistic_entry__descriptor") none
    ∷ field "last_15min" 4 single message none "last_15min" (some "statistic_entry__descriptor")
        none
    ∷ field "total" 5 single message none "total" (some "statistic_entry__descriptor") none
    ∷ field "polar_range" 6 repeated message (some "n_polar_range") "polar_range"
        (some "statistics__polar_range_entry__descriptor") none
    ∷ []

unfoldable pub field_indices_by_name : List ℕ
field_indices_by_name = 3 ∷ 1 ∷ 2 ∷ 0 ∷ 5 ∷ 4 ∷ []

unfoldable pub number_ranges : List Range
number_ranges = range 1 0 ∷ range 0 6 ∷ []

unfoldable pub descriptor : Descriptor
unfolding field_descriptors field_indices_by_name number_ranges
descriptor = record {
  name = "Statistics";
  short_name = "Statistics";
  c_name = "Statistics";
  package_name = "";
  n_fields = 6;
  fields = field_descriptors;
  fields_sorted_by_name = field_indices_by_name;
  n_field_ranges = 1;
  field_ranges = number_ranges;
}

-- The members of the struct behind `base`.
unfoldable pub members : List String
members =
    "latest" ∷ "last_1min" ∷ "last_5min" ∷ "last_15min" ∷ "total" ∷ "n_polar_range" ∷ "polar_range"
    ∷ []

unfoldable pub declared : List Declared
declared =
    declare "latest" 1 single message
    ∷ declare "last_1min" 2 single message
    ∷ declare "last_5min" 3 single message
    ∷ declare "last_15min" 4 single message
    ∷ declare "total" 5 single message
    ∷ declare "polar_range" 6 repeated message
    ∷ []

-- The descriptor beside the struct and the declaration that it must agree with.
unfoldable pub table : Table
unfolding descriptor members declared
table = record { descriptor = descriptor; members = members; declared = declared }
