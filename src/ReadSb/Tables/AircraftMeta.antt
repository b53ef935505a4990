-- ===== src/ReadSb/Tables/AircraftMeta.antt =====
-- The descriptor of `AircraftMeta` in src/mwp/readsb.pb-c.c, its struct in src/mwp/readsb.pb-c.h
-- and its declaration in src/samples/adsb-extra/readsb.proto.
use mwptools.Common.{ℕ, String, none, some, List, [], ◌∷◌, ◌++◌}
use mwptools.ReadSb.Descriptor.{
  Field, field, Range, range, Descriptor, Declared, declare, Table, bool, double, enumeration,
  float, int32, message, single, text, uint32, uint64,
}

fields_0_to_11 : List Field
fields_0_to_11 =
    field "addr" 1 single uint32 none "addr" none none
    ∷ field "flight" 2 single text none "flight" none (some "protobuf_c_empty_string")
    ∷ field "squawk" 3 single uint32 none "squawk" none none
    ∷ field "category" 4 single uint32 none "category" none none
    ∷ field "alt_baro" 5 single int32 none "alt_baro" none none
    ∷ field "mag_heading" 6 single int32 none "mag_heading" none none
    ∷ field "ias" 7 single uint32 none "ias" none none
    ∷ field "lat" 8 single double none "lat" none none
    ∷ field "lon" 9 single double none "lon" none none
    ∷ field "messages" 10 single uint64 none "messages" none none
    ∷ field "seen" 11 single uint64 none "seen" none none
    ∷ field "rssi" 12 single float none "rssi" none none
    ∷ []

fields_12_to_23 : List Field
fields_12_to_23 =
    field "distance" 13 single uint32 none "distance" none none
    ∷ field "air_ground" 15 single enumeration none "air_ground"
        (some "aircraft_meta__air_ground__descriptor") none
    ∷ field "alt_geom" 20 single int32 none "alt_geom" none none
    ∷ field "baro_rate" 21 single int32 none "baro_rate" none none
    ∷ field "geom_rate" 22 single int32 none "geom_rate" none none
    ∷ field "gs" 23 single uint32 none "gs" none none
    ∷ field "tas" 24 single uint32 none "tas" none none
    ∷ field "mach" 25 single float none "mach" none none
    ∷ field "true_heading" 26 single int32 none "true_heading" none none
    ∷ field "track" 27 single int32 none "track" none none
    ∷ field "track_rate" 28 single float none "track_rate" none none
    ∷ field "roll" 29 single float none "roll" none none
    ∷ []

fields_24_to_35 : List Field
fields_24_to_35 =
    field "nav_qnh" 30 single float none "nav_qnh" none none
    ∷ field "nav_altitude_mcp" 31 single int32 none "nav_altitude_mcp" none none
    ∷ field "nav_altitude_fms" 32 single int32 none "nav_altitude_fms" none none
    ∷ field "nav_heading" 33 single int32 none "nav_heading" none none
    ∷ field "nic" 34 single uint32 none "nic" none none
    ∷ field "rc" 35 single uint32 none "rc" none none
    ∷ field "version" 36 single int32 none "version" none none
    ∷ field "nic_baro" 37 single uint32 none "nic_baro" none none
    ∷ field "nac_p" 38 single uint32 none "nac_p" none none
    ∷ field "nac_v" 39 single uint32 none "nac_v" none none
    ∷ field "sil" 40 single uint32 none "sil" none none
    ∷ field "seen_pos" 41 single uint32 none "seen_pos" none none
    ∷ []

fields_36_to_47 : List Field
fields_36_to_47 =
    field "alert" 42 single bool none "alert" none none
    ∷ field "spi" 43 single bool none "spi" none none
    ∷ field "gva" 44 single uint32 none "gva" none none
    ∷ field "sda" 45 single uint32 none "sda" none none
    ∷ field "declination" 46 single double none "declination" none none
    ∷ field "wind_speed" 47 single uint32 none "wind_speed" none none
    ∷ field "wind_direction" 48 single uint32 none "wind_direction" none none
    ∷ field "addr_type" 100 single enumeration none "addr_type"
        (some "aircraft_meta__addr_type__descriptor") none
    ∷ field "emergency" 101 single enumeration none "emergency"
        (some "aircraft_meta__emergency__descriptor") none
    ∷ field "sil_type" 102 single enumeration none "sil_type"
        (some "aircraft_meta__sil_type__descriptor") none
    ∷ field "nav_modes" 150 single message none "nav_modes"
        (some "aircraft_meta__nav_modes__descriptor") none
    ∷ field "valid_source" 151 single message none "valid_source"
        (some "aircraft_meta__valid_source__descriptor") none
    ∷ []

unfoldable pub field_descriptors : List Field
unfolding fields_0_to_11 fields_12_to_23 fields_24_to_35 fields_36_to_47
field_descriptors = fields_0_to_11 ++ (fields_12_to_23 ++ (fields_24_to_35 ++ fields_36_to_47))

unfoldable pub field_indices_by_name : List ℕ
field_indices_by_name =
    0 ∷ 43 ∷ 13 ∷ 36 ∷ 4 ∷ 14 ∷ 15 ∷ 3 ∷ 40 ∷ 12 ∷ 44 ∷ 1 ∷ 16 ∷ 17 ∷ 38 ∷ 6 ∷ 7 ∷ 8 ∷ 19 ∷ 5 ∷ 9
    ∷ 32 ∷ 33 ∷ 26 ∷ 25 ∷ 27 ∷ 46 ∷ 24 ∷ 28 ∷ 31 ∷ 29 ∷ 23 ∷ 11 ∷ 39 ∷ 10 ∷ 35 ∷ 34 ∷ 45 ∷ 37 ∷ 2
    ∷ 18 ∷ 21 ∷ 22 ∷ 20 ∷ 47 ∷ 30 ∷ 42 ∷ 41 ∷ []

unfoldable pub number_ranges : List Range
number_ranges =
    range 1 0 ∷ range 15 13 ∷ range 20 14 ∷ range 100 43 ∷ range 150 46 ∷ range 0 48 ∷ []

unfoldable pub descriptor : Descriptor
unfolding field_descriptors field_indices_by_name number_ranges
descriptor = record {
  name = "AircraftMeta";
  short_name = "AircraftMeta";
  c_name = "AircraftMeta";
  package_name = "";
  n_fields = 48;
  fields = field_descriptors;
  fields_sorted_by_name = field_indices_by_name;
  n_field_ranges = 5;
  field_ranges = number_ranges;
}

-- The members of the struct behind `base`.
unfoldable pub members : List String
members =
    "addr" ∷ "flight" ∷ "squawk" ∷ "category" ∷ "alt_baro" ∷ "mag_heading" ∷ "ias" ∷ "lat" ∷ "lon"
    ∷ "messages" ∷ "seen" ∷ "rssi" ∷ "distance" ∷ "air_ground" ∷ "alt_geom" ∷ "baro_rate"
    ∷ "geom_rate" ∷ "gs" ∷ "tas" ∷ "mach" ∷ "true_heading" ∷ "track" ∷ "track_rate" ∷ "roll"
    ∷ "nav_qnh" ∷ "nav_altitude_mcp" ∷ "nav_altitude_fms" ∷ "nav_heading" ∷ "nic" ∷ "rc" ∷ "version"
    ∷ "nic_baro" ∷ "nac_p" ∷ "nac_v" ∷ "sil" ∷ "seen_pos" ∷ "alert" ∷ "spi" ∷ "gva" ∷ "sda"
    ∷ "declination" ∷ "wind_speed" ∷ "wind_direction" ∷ "addr_type" ∷ "emergency" ∷ "sil_type"
    ∷ "nav_modes" ∷ "valid_source" ∷ []

unfoldable pub declared : List Declared
declared =
    declare "addr" 1 single uint32
    ∷ declare "flight" 2 single text
    ∷ declare "squawk" 3 single uint32
    ∷ declare "category" 4 single uint32
    ∷ declare "alt_baro" 5 single int32
    ∷ declare "mag_heading" 6 single int32
    ∷ declare "ias" 7 single uint32
    ∷ declare "lat" 8 single double
    ∷ declare "lon" 9 single double
    ∷ declare "messages" 10 single uint64
    ∷ declare "seen" 11 single uint64
    ∷ declare "rssi" 12 single float
    ∷ declare "distance" 13 single uint32
    ∷ declare "air_ground" 15 single enumeration
    ∷ declare "alt_geom" 20 single int32
    ∷ declare "baro_rate" 21 single int32
    ∷ declare "geom_rate" 22 single int32
    ∷ declare "gs" 23 single uint32
    ∷ declare "tas" 24 single uint32
    ∷ declare "mach" 25 single float
    ∷ declare "true_heading" 26 single int32
    ∷ declare "track" 27 single int32
    ∷ declare "track_rate" 28 single float
    ∷ declare "roll" 29 single float
    ∷ declare "nav_qnh" 30 single float
    ∷ declare "nav_altitude_mcp" 31 single int32
    ∷ declare "nav_altitude_fms" 32 single int32
    ∷ declare "nav_heading" 33 single int32
    ∷ declare "nic" 34 single uint32
    ∷ declare "rc" 35 single uint32
    ∷ declare "version" 36 single int32
    ∷ declare "nic_baro" 37 single uint32
    ∷ declare "nac_p" 38 single uint32
    ∷ declare "nac_v" 39 single uint32
    ∷ declare "sil" 40 single uint32
    ∷ declare "seen_pos" 41 single uint32
    ∷ declare "alert" 42 single bool
    ∷ declare "spi" 43 single bool
    ∷ declare "gva" 44 single uint32
    ∷ declare "sda" 45 single uint32
    ∷ declare "declination" 46 single double
    ∷ declare "wind_speed" 47 single uint32
    ∷ declare "wind_direction" 48 single uint32
    ∷ declare "addr_type" 100 single enumeration
    ∷ declare "emergency" 101 single enumeration
    ∷ declare "sil_type" 102 single enumeration
    ∷ declare "nav_modes" 150 single message
    ∷ declare "valid_source" 151 single message
    ∷ []

-- The descriptor beside the struct and the declaration that it must agree with.
unfoldable pub table : Table
unfolding descriptor members declared
table = record { descriptor = descriptor; members = members; declared = declared }
