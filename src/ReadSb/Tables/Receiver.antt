-- ===== src/ReadSb/Tables/Receiver.antt =====
-- The descriptor of `Receiver` in src/mwp/readsb.pb-c.c, its struct in src/mwp/readsb.pb-c.h
-- and its declaration in src/samples/adsb-extra/readsb.proto.
use mwptools.Common.{ℕ, String, none, some, List, [], ◌∷◌}
use mwptools.ReadSb.Descriptor.{
  Field, field, Range, range, Descriptor, Declared, declare, Table, double, float, single, text,
  uint32,
}

unfoldable pub field_descriptors : List Field
field_descriptors =
    field "version" 1 single text none "version" none (some "protobuf_c_empty_string")
    ∷ field "refresh" 2 single float none "refresh" none none
    ∷ field "latitude" 3 single double none "latitude" none none
    ∷ field "longitude" 4 single double none "longitude" none none
    ∷ field "altitude" 5 single uint32 none "altitude" none none
    ∷ field "antenna_serial" 6 single uint32 none "antenna_serial" none none
    ∷ field "antenna_flags" 7 single uint32 none "antenna_flags" none none
    ∷ field "antenna_gps_sats" 8 single uint32 none "antenna_gps_sats" none none
    ∷ field "antenna_gps_hdop" 9 single uint32 none "antenna_gps_hdop" none none
    ∷ field "antenna_reserved" 14 single uint32 none "antenna_reserved" none none
    ∷ field "history" 15 single uint32 none "history" none none
    ∷ []

unfoldable pub field_indices_by_name : List ℕ
field_indices_by_name = 4 ∷ 6 ∷ 8 ∷ 7 ∷ 9 ∷ 5 ∷ 10 ∷ 2 ∷ 3 ∷ 1 ∷ 0 ∷ []

unfoldable pub number_ranges : List Range
number_ranges = range 1 0 ∷ range 14 9 ∷ range 0 11 ∷ []

unfoldable pub descriptor : Descriptor
unfolding field_descriptors field_indices_by_name number_ranges
descriptor = record {
  name = "Receiver";
  short_name = "Receiver";
  c_name = "Receiver";
  package_name = "";
  n_fields = 11;
  fields = field_descriptors;
  fields_sorted_by_name = field_indices_by_name;
  n_field_ranges = 2;
  field_ranges = number_ranges;
}

-- The members of the struct behind `base`.
unfoldable pub members : List String
members =
    "version" ∷ "refresh" ∷ "latitude" ∷ "longitude" ∷ "altitude" ∷ "antenna_serial"
    ∷ "antenna_flags" ∷ "antenna_gps_sats" ∷ "antenna_gps_hdop" ∷ "antenna_reserved" ∷ "history"
    ∷ []

unfoldable pub declared : List Declared
declared =
    declare "version" 1 single text
    ∷ declare "refresh" 2 single float
    ∷ declare "latitude" 3 single double
    ∷ declare "longitude" 4 single double
    ∷ declare "altitude" 5 single uint32
    ∷ declare "antenna_serial" 6 single uint32
    ∷ declare "antenna_flags" 7 single uint32
    ∷ declare "antenna_gps_sats" 8 single uint32
    ∷ declare "antenna_gps_hdop" 9 single uint32
    ∷ declare "antenna_reserved" 14 single uint32
    ∷ declare "history" 15 single uint32
    ∷ []

-- The descriptor beside the struct and the declaration that it must agree with.
unfoldable pub table : Table
unfolding descriptor members declared
table = record { descriptor = descriptor; members = members; declared = declared }
