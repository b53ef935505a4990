-- ===== src/ReadSb/Tables/AircraftMetaNavModes.antt =====
-- The descriptor of `AircraftMeta__NavModes` in src/mwp/readsb.pb-c.c, its struct in src/mwp/readsb.pb-c.h
-- and its declaration in src/samples/adsb-extra/readsb.proto.
use mwptools.Common.{ℕ, String, none, List, [], ◌∷◌}
use mwptools.ReadSb.Descriptor.{
  Field, field, Range, range, Descriptor, Declared, declare, Table, bool, single,
}

unfoldable pub field_descriptors : List Field
field_descriptors =
    field "autopilot" 1 single bool none "autopilot" none none
    ∷ field "vnav" 2 single bool none "vnav" none none
    ∷ field "althold" 3 single bool none "althold" none none
    ∷ field "approach" 4 single bool none "approach" none none
    ∷ field "lnav" 5 single bool none "lnav" none none
    ∷ field "tcas" 6 single bool none "tcas" none none
    ∷ []

unfoldable pub field_indices_by_name : List ℕ
field_indices_by_name = 2 ∷ 3 ∷ 0 ∷ 4 ∷ 5 ∷ 1 ∷ []

unfoldable pub number_ranges : List Range
number_ranges = range 1 0 ∷ range 0 6 ∷ []

unfoldable pub descriptor : Descriptor
unfolding field_descriptors field_indices_by_name number_ranges
descriptor = record {
  name = "AircraftMeta.NavModes";
  short_name = "NavModes";
  c_name = "AircraftMeta__NavModes";
  package_name = "";
  n_fields = 6;
  fields = field_descriptors;
  fields_sorted_by_name = field_indices_by_name;
  n_field_ranges = 1;
  field_ranges = number_ranges;
}

-- The members of the struct behind `base`.
unfoldable pub members : List String
members = "autopilot" ∷ "vnav" ∷ "althold" ∷ "approach" ∷ "lnav" ∷ "tcas" ∷ []

unfoldable pub declared : List Declared
declared =
    declare "autopilot" 1 single bool
    ∷ declare "vnav" 2 single bool
    ∷ declare "althold" 3 single bool
    ∷ declare "approach" 4 single bool
    ∷ declare "lnav" 5 single bool
    ∷ declare "tcas" 6 single bool
    ∷ []

-- The descriptor beside the struct and the declaration that it must agree with.
unfoldable pub table : Table
unfolding descriptor members declared
table = record { descriptor = descriptor; members = members; declared = declared }
