-- ===== src/ReadSb/Tables/Enums.antt =====
-- The enum descriptors of src/mwp/readsb.pb-c.c, against their declarations in
-- src/samples/adsb-extra/readsb.proto.
use mwptools.Common.{ℕ, String, List, [], ◌∷◌}
use mwptools.ReadSb.Descriptor.{Range, range, EnumValue, value, EnumDescriptor, EnumTable}

air_ground_values_by_number : List EnumValue
air_ground_values_by_number =
    value "AG_INVALID" "AIRCRAFT_META__AIR_GROUND__AG_INVALID" 0
    ∷ value "AG_GROUND" "AIRCRAFT_META__AIR_GROUND__AG_GROUND" 1
    ∷ value "AG_AIRBORNE" "AIRCRAFT_META__AIR_GROUND__AG_AIRBORNE" 2
    ∷ value "AG_UNCERTAIN" "AIRCRAFT_META__AIR_GROUND__AG_UNCERTAIN" 3
    ∷ []

air_ground_value_ranges : List Range
air_ground_value_ranges = range 0 0 ∷ range 0 4 ∷ []

air_ground_values_by_name : List (String × ℕ)
air_ground_values_by_name =
    ("AG_AIRBORNE", 2) ∷ ("AG_GROUND", 1) ∷ ("AG_INVALID", 0) ∷ ("AG_UNCERTAIN", 3) ∷ []

unfoldable pub air_ground_descriptor : EnumDescriptor
unfolding air_ground_values_by_number air_ground_value_ranges air_ground_values_by_name
air_ground_descriptor = record {
  name = "AircraftMeta.AirGround";
  short_name = "AirGround";
  c_name = "AircraftMeta__AirGround";
  package_name = "";
  values = air_ground_values_by_number;
  values_by_name = air_ground_values_by_name;
  value_ranges = air_ground_value_ranges;
}

unfoldable pub air_ground_declared : List (String × ℕ)
air_ground_declared =
    ("AG_INVALID", 0) ∷ ("AG_GROUND", 1) ∷ ("AG_AIRBORNE", 2) ∷ ("AG_UNCERTAIN", 3) ∷ []

addr_type_values_by_number : List EnumValue
addr_type_values_by_number =
    value "ADDR_ADSB_ICAO" "AIRCRAFT_META__ADDR_TYPE__ADDR_ADSB_ICAO" 0
    ∷ value "ADDR_ADSB_ICAO_NT" "AIRCRAFT_META__ADDR_TYPE__ADDR_ADSB_ICAO_NT" 1
    ∷ value "ADDR_ADSR_ICAO" "AIRCRAFT_META__ADDR_TYPE__ADDR_ADSR_ICAO" 2
    ∷ value "ADDR_TISB_ICAO" "AIRCRAFT_META__ADDR_TYPE__ADDR_TISB_ICAO" 3
    ∷ value "ADDR_ADSB_OTHER" "AIRCRAFT_META__ADDR_TYPE__ADDR_ADSB_OTHER" 4
    ∷ value "ADDR_ADSR_OTHER" "AIRCRAFT_META__ADDR_TYPE__ADDR_ADSR_OTHER" 5
    ∷ value "ADDR_TISB_TRACKFILE" "AIRCRAFT_META__ADDR_TYPE__ADDR_TISB_TRACKFILE" 6
    ∷ value "ADDR_TISB_OTHER" "AIRCRAFT_META__ADDR_TYPE__ADDR_TISB_OTHER" 7
    ∷ value "ADDR_MODE_A" "AIRCRAFT_META__ADDR_TYPE__ADDR_MODE_A" 8
    ∷ value "ADDR_UNKNOWN" "AIRCRAFT_META__ADDR_TYPE__ADDR_UNKNOWN" 9
    ∷ []

addr_type_value_ranges : List Range
addr_type_value_ranges = range 0 0 ∷ range 0 10 ∷ []

addr_type_values_by_name : List (String × ℕ)
addr_type_values_by_name =
    ("ADDR_ADSB_ICAO", 0)
    ∷ ("ADDR_ADSB_ICAO_NT", 1)
    ∷ ("ADDR_ADSB_OTHER", 4)
    ∷ ("ADDR_ADSR_ICAO", 2)
    ∷ ("ADDR_ADSR_OTHER", 5)
    ∷ ("ADDR_MODE_A", 8)
    ∷ ("ADDR_TISB_ICAO", 3)
    ∷ ("ADDR_TISB_OTHER", 7)
    ∷ ("ADDR_TISB_TRACKFILE", 6)
    ∷ ("ADDR_UNKNOWN", 9)
    ∷ []

unfoldable pub addr_type_descriptor : EnumDescriptor
unfolding addr_type_values_by_number addr_type_value_ranges addr_type_values_by_name
addr_type_descriptor = record {
  name = "AircraftMeta.AddrType";
  short_name = "AddrType";
  c_name = "AircraftMeta__AddrType";
  package_name = "";
  values = addr_type_values_by_number;
  values_by_name = addr_type_values_by_name;
  value_ranges = addr_type_value_ranges;
}

unfoldable pub addr_type_declared : List (String × ℕ)
addr_type_declared =
    ("ADDR_ADSB_ICAO", 0)
    ∷ ("ADDR_ADSB_ICAO_NT", 1)
    ∷ ("ADDR_ADSR_ICAO", 2)
    ∷ ("ADDR_TISB_ICAO", 3)
    ∷ ("ADDR_ADSB_OTHER", 4)
    ∷ ("ADDR_ADSR_OTHER", 5)
    ∷ ("ADDR_TISB_TRACKFILE", 6)
    ∷ ("ADDR_TISB_OTHER", 7)
    ∷ ("ADDR_MODE_A", 8)
    ∷ ("ADDR_UNKNOWN", 9)
    ∷ []

emergency_values_by_number : List EnumValue
emergency_values_by_number =
    value "EMERGENCY_NONE" "AIRCRAFT_META__EMERGENCY__EMERGENCY_NONE" 0
    ∷ value "EMERGENCY_GENERAL" "AIRCRAFT_META__EMERGENCY__EMERGENCY_GENERAL" 1
    ∷ value "EMERGENCY_LIFEGUARD" "AIRCRAFT_META__EMERGENCY__EMERGENCY_LIFEGUARD" 2
    ∷ value "EMERGENCY_MINFUEL" "AIRCRAFT_META__EMERGENCY__EMERGENCY_MINFUEL" 3
    ∷ value "EMERGENCY_NORDO" "AIRCRAFT_META__EMERGENCY__EMERGENCY_NORDO" 4
    ∷ value "EMERGENCY_UNLAWFUL" "AIRCRAFT_META__EMERGENCY__EMERGENCY_UNLAWFUL" 5
    ∷ value "EMERGENCY_DOWNED" "AIRCRAFT_META__EMERGENCY__EMERGENCY_DOWNED" 6
    ∷ value "EMERGENCY_RESERVED" "AIRCRAFT_META__EMERGENCY__EMERGENCY_RESERVED" 7
    ∷ []

emergency_value_ranges : List Range
emergency_value_ranges = range 0 0 ∷ range 0 8 ∷ []

emergency_values_by_name : List (String × ℕ)
emergency_values_by_name =
    ("EMERGENCY_DOWNED", 6)
    ∷ ("EMERGENCY_GENERAL", 1)
    ∷ ("EMERGENCY_LIFEGUARD", 2)
    ∷ ("EMERGENCY_MINFUEL", 3)
    ∷ ("EMERGENCY_NONE", 0)
    ∷ ("EMERGENCY_NORDO", 4)
    ∷ ("EMERGENCY_RESERVED", 7)
    ∷ ("EMERGENCY_UNLAWFUL", 5)
    ∷ []

unfoldable pub emergency_descriptor : EnumDescriptor
unfolding emergency_values_by_number emergency_value_ranges emergency_values_by_name
emergency_descriptor = record {
  name = "AircraftMeta.Emergency";
  short_name = "Emergency";
  c_name = "AircraftMeta__Emergency";
  package_name = "";
  values = emergency_values_by_number;
  values_by_name = emergency_values_by_name;
  value_ranges = emergency_value_ranges;
}

unfoldable pub emergency_declared : List (String × ℕ)
emergency_declared =
    ("EMERGENCY_NONE", 0)
    ∷ ("EMERGENCY_GENERAL", 1)
    ∷ ("EMERGENCY_LIFEGUARD", 2)
    ∷ ("EMERGENCY_MINFUEL", 3)
    ∷ ("EMERGENCY_NORDO", 4)
    ∷ ("EMERGENCY_UNLAWFUL", 5)
    ∷ ("EMERGENCY_DOWNED", 6)
    ∷ ("EMERGENCY_RESERVED", 7)
    ∷ []

sil_type_values_by_number : List EnumValue
sil_type_values_by_number =
    value "SIL_INVALID" "AIRCRAFT_META__SIL_TYPE__SIL_INVALID" 0
    ∷ value "SIL_UNKNOWN" "AIRCRAFT_META__SIL_TYPE__SIL_UNKNOWN" 1
    ∷ value "SIL_PER_SAMPLE" "AIRCRAFT_META__SIL_TYPE__SIL_PER_SAMPLE" 2
    ∷ value "SIL_PER_HOUR" "AIRCRAFT_META__SIL_TYPE__SIL_PER_HOUR" 3
    ∷ []

sil_type_value_ranges : List Range
sil_type_value_ranges = range 0 0 ∷ range 0 4 ∷ []

sil_type_values_by_name : List (String × ℕ)
sil_type_values_by_name =
    ("SIL_INVALID", 0) ∷ ("SIL_PER_HOUR", 3) ∷ ("SIL_PER_SAMPLE", 2) ∷ ("SIL_UNKNOWN", 1) ∷ []

unfoldable pub sil_type_descriptor : EnumDescriptor
unfolding sil_type_values_by_number sil_type_value_ranges sil_type_values_by_name
sil_type_descriptor = record {
  name = "AircraftMeta.SilType";
  short_name = "SilType";
  c_name = "AircraftMeta__SilType";
  package_name = "";
  values = sil_type_values_by_number;
  values_by_name = sil_type_values_by_name;
  value_ranges = sil_type_value_ranges;
}

unfoldable pub sil_type_declared : List (String × ℕ)
sil_type_declared =
    ("SIL_INVALID", 0) ∷ ("SIL_UNKNOWN", 1) ∷ ("SIL_PER_SAMPLE", 2) ∷ ("SIL_PER_HOUR", 3) ∷ []

unfoldable pub enums : List EnumTable
unfolding air_ground_descriptor air_ground_declared addr_type_descriptor addr_type_declared
    emergency_descriptor emergency_declared sil_type_descriptor sil_type_declared
enums =
    record { descriptor = air_ground_descriptor; declared = air_ground_declared }
    ∷ record { descriptor = addr_type_descriptor; declared = addr_type_declared }
    ∷ record { descriptor = emergency_descriptor; declared = emergency_declared }
    ∷ record { descriptor = sil_type_descriptor; declared = sil_type_declared }
    ∷ []
