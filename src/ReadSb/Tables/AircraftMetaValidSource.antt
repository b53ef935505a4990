-- ===== src/ReadSb/Tables/AircraftMetaValidSource.antt =====
-- The descriptor of `AircraftMeta__ValidSource` in src/mwp/readsb.pb-c.c, its struct in src/mwp/readsb.pb-c.h
-- and its declaration in src/samples/adsb-extra/readsb.proto.
use mwptools.Common.{ℕ, String, none, List, [], ◌∷◌, ◌++◌}
use mwptools.ReadSb.Descriptor.{
  Field, field, Range, range, Descriptor, Declared, declare, Table, single, uint32,
}

fields_0_to_11 : List Field
fields_0_to_11 =
    field "callsign" 100 single uint32 none "callsign" none none
    ∷ field "altitude" 101 single uint32 none "altitude" none none
    ∷ field "alt_geom" 102 single uint32 none "alt_geom" none none
    ∷ field "gs" 103 single uint32 none "gs" none none
    ∷ field "ias" 104 single uint32 none "ias" none none
    ∷ field "tas" 105 single uint32 none "tas" none none
    ∷ field "mach" 106 single uint32 none "mach" none none
    ∷ field "track" 107 single uint32 none "track" none none
    ∷ field "track_rate" 108 single uint32 none "track_rate" none none
    ∷ field "roll" 109 single uint32 none "roll" none none
    ∷ field "mag_heading" 110 single uint32 none "mag_heading" none none
    ∷ field "true_heading" 111 single uint32 none "true_heading" none none
    ∷ []

fields_12_to_23 : List Field
fields_12_to_23 =
    field "baro_rate" 112 single uint32 none "baro_rate" none none
    ∷ field "geom_rate" 113 single uint32 none "geom_rate" none none
    ∷ field "squawk" 114 single uint32 none "squawk" none none
    ∷ field "emergency" 115 single uint32 none "emergency" none none
    ∷ field "nav_qnh" 116 single uint32 none "nav_qnh" none none
    ∷ field "nav_altitude_mcp" 117 single uint32 none "nav_altitude_mcp" none none
    ∷ field "nav_altitude_fms" 118 single uint32 none "nav_altitude_fms" none none
    ∷ field "nav_heading" 119 single uint32 none "nav_heading" none none
    ∷ field "nav_modes" 120 single uint32 none "nav_modes" none none
    ∷ field "lat" 121 single uint32 none "lat" none none
    ∷ field "lon" 122 single uint32 none "lon" none none
    ∷ field "nic" 123 single uint32 none "nic" none none
    ∷ []

fields_24_to_32 : List Field
fields_24_to_32 =
    field "rc" 124 single uint32 none "rc" none none
    ∷ field "nic_baro" 125 single uint32 none "nic_baro" none none
    ∷ field "nac_p" 126 single uint32 none "nac_p" none none
    ∷ field "nac_v" 127 single uint32 none "nac_v" none none
    ∷ field "sil" 128 single uint32 none "sil" none none
    ∷ field "sil_type" 129 single uint32 none "sil_type" none none
    ∷ field "gva" 130 single uint32 none "gva" none none
    ∷ field "sda" 131 single uint32 none "sda" none none
    ∷ field "wind" 132 single uint32 none "wind" none none
    ∷ []

unfoldable pub field_descriptors : List Field
unfolding fields_0_to_11 fields_12_to_23 fields_24_to_32
field_descriptors = fields_0_to_11 ++ (fields_12_to_23 ++ fields_24_to_32)

unfoldable pub field_indices_by_name : List ℕ
field_indices_by_name =
    2 ∷ 1 ∷ 12 ∷ 0 ∷ 15 ∷ 13 ∷ 3 ∷ 30 ∷ 4 ∷ 21 ∷ 22 ∷ 6 ∷ 10 ∷ 26 ∷ 27 ∷ 18 ∷ 17 ∷ 19 ∷ 20 ∷ 16 ∷ 23
    ∷ 25 ∷ 24 ∷ 9 ∷ 31 ∷ 28 ∷ 29 ∷ 14 ∷ 5 ∷ 7 ∷ 8 ∷ 11 ∷ 32 ∷ []

unfoldable pub number_ranges : List Range
number_ranges = range 100 0 ∷ range 0 33 ∷ []

unfoldable pub descriptor : Descriptor
unfolding field_descriptors field_indices_by_name number_ranges
descriptor = record {
  name = "AircraftMeta.ValidSource";
  short_name = "ValidSource";
  c_name = "AircraftMeta__ValidSource";
  package_name = "";
  n_fields = 33;
  fields = field_descriptors;
  fields_sorted_by_name = field_indices_by_name;
  n_field_ranges = 1;
  field_ranges = number_ranges;
}

-- The members of the struct behind `base`.
unfoldable pub members : List String
members =
    "callsign" ∷ "altitude" ∷ "alt_geom" ∷ "gs" ∷ "ias" ∷ "tas" ∷ "mach" ∷ "track" ∷ "track_rate"
    ∷ "roll" ∷ "mag_heading" ∷ "true_heading" ∷ "baro_rate" ∷ "geom_rate" ∷ "squawk" ∷ "emergency"
    ∷ "nav_qnh" ∷ "nav_altitude_mcp" ∷ "nav_altitude_fms" ∷ "nav_heading" ∷ "nav_modes" ∷ "lat"
    ∷ "lon" ∷ "nic" ∷ "rc" ∷ "nic_baro" ∷ "nac_p" ∷ "nac_v" ∷ "sil" ∷ "sil_type" ∷ "gva" ∷ "sda"
    ∷ "wind" ∷ []

unfoldable pub declared : List Declared
declared =
    declare "callsign" 100 single uint32
    ∷ declare "altitude" 101 single uint32
    ∷ declare "alt_geom" 102 single uint32
    ∷ declare "gs" 103 single uint32
    ∷ declare "ias" 104 single uint32
    ∷ declare "tas" 105 single uint32
    ∷ declare "mach" 106 single uint32
    ∷ declare "track" 107 single uint32
    ∷ declare "track_rate" 108 single uint32
    ∷ declare "roll" 109 single uint32
    ∷ declare "mag_heading" 110 single uint32
    ∷ declare "true_heading" 111 single uint32
    ∷ declare "baro_rate" 112 single uint32
    ∷ declare "geom_rate" 113 single uint32
    ∷ declare "squawk" 114 single uint32
    ∷ declare "emergency" 115 single uint32
    ∷ declare "nav_qnh" 116 single uint32
    ∷ declare "nav_altitude_mcp" 117 single uint32
    ∷ declare "nav_altitude_fms" 118 single uint32
    ∷ declare "nav_heading" 119 single uint32
    ∷ declare "nav_modes" 120 single uint32
    ∷ declare "lat" 121 single uint32
    ∷ declare "lon" 122 single uint32
    ∷ declare "nic" 123 single uint32
    ∷ declare "rc" 124 single uint32
    ∷ declare "nic_baro" 125 single uint32
    ∷ declare "nac_p" 126 single uint32
    ∷ declare "nac_v" 127 single uint32
    ∷ declare "sil" 128 single uint32
    ∷ declare "sil_type" 129 single uint32
    ∷ declare "gva" 130 single uint32
    ∷ declare "sda" 131 single uint32
    ∷ declare "wind" 132 single uint32
    ∷ []

-- The descriptor beside the struct and the declaration that it must agree with.
unfoldable pub table : Table
unfolding descriptor members declared
table = record { descriptor = descriptor; members = members; declared = declared }
