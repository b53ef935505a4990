-- ===== src/ReadSb/Tables/StatisticEntry.antt =====
-- The descriptor of `StatisticEntry` in src/mwp/readsb.pb-c.c, its struct in src/mwp/readsb.pb-c.h
-- and its declaration in src/samples/adsb-extra/readsb.proto.
use mwptools.Common.{ℕ, String, none, List, [], ◌∷◌, ◌++◌}
use mwptools.ReadSb.Descriptor.{
  Field, field, Range, range, Descriptor, Declared, declare, Table, float, single, uint32, uint64,
}

fields_0_to_11 : List Field
fields_0_to_11 =
    field "start" 1 single uint64 none "start" none none
    ∷ field "stop" 2 single uint64 none "stop" none none
    ∷ field "messages" 3 single uint64 none "messages" none none
    ∷ field "max_distance_in_metres" 4 single uint32 none "max_distance_in_metres" none none
    ∷ field "max_distance_in_nautical_miles" 5 single uint32 none "max_distance_in_nautical_miles"
        none none
    ∷ field "altitude_suppressed" 6 single uint64 none "altitude_suppressed" none none
    ∷ field "tracks_new" 7 single uint64 none "tracks_new" none none
    ∷ field "tracks_single_message" 8 single uint64 none "tracks_single_message" none none
    ∷ field "tracks_with_position" 9 single uint64 none "tracks_with_position" none none
    ∷ field "tracks_mlat_position" 10 single uint64 none "tracks_mlat_position" none none
    ∷ field "tracks_tisb_position" 11 single uint64 none "tracks_tisb_position" none none
    ∷ field "cpu_demod" 20 single uint64 none "cpu_demod" none none
    ∷ []

fields_12_to_23 : List Field
fields_12_to_23 =
    field "cpu_reader" 21 single uint64 none "cpu_reader" none none
    ∷ field "cpu_background" 22 single uint64 none "cpu_background" none none
    ∷ field "cpr_surface" 40 single uint64 none "cpr_surface" none none
    ∷ field "cpr_airborne" 41 single uint64 none "cpr_airborne" none none
    ∷ field "cpr_global_ok" 42 single uint64 none "cpr_global_ok" none none
    ∷ field "cpr_global_bad" 43 single uint64 none "cpr_global_bad" none none
    ∷ field "cpr_global_range" 44 single uint64 none "cpr_global_range" none none
    ∷ field "cpr_global_speed" 45 single uint64 none "cpr_global_speed" none none
    ∷ field "cpr_global_skipped" 46 single uint64 none "cpr_global_skipped" none none
    ∷ field "cpr_local_ok" 47 single uint64 none "cpr_local_ok" none none
    ∷ field "cpr_local_aircraft_relative" 48 single uint64 none "cpr_local_aircraft_relative" none
        none
    ∷ field "cpr_local_receiver_relative" 49 single uint64 none "cpr_local_receiver_relative" none
        none
    ∷ []

fields_24_to_35 : List Field
fields_24_to_35 =
    field "cpr_local_skipped" 50 single uint64 none "cpr_local_skipped" none none
    ∷ field "cpr_local_range" 51 single uint64 none "cpr_local_range" none none
    ∷ field "cpr_local_speed" 52 single uint64 none "cpr_local_speed" none none
    ∷ field "cpr_filtered" 53 single uint64 none "cpr_filtered" none none
    ∷ field "remote_modeac" 70 single uint64 none "remote_modeac" none none
    ∷ field "remote_modes" 71 single uint64 none "remote_modes" none none
    ∷ field "remote_bad" 72 single uint64 none "remote_bad" none none
    ∷ field "remote_unknown_icao" 73 single uint64 none "remote_unknown_icao" none none
    ∷ field "remote_accepted" 74 single uint64 none "remote_accepted" none none
    ∷ field "local_samples_processed" 90 single uint64 none "local_samples_processed" none none
    ∷ field "local_samples_dropped" 91 single uint64 none "local_samples_dropped" none none
    ∷ field "local_modeac" 92 single uint64 none "local_modeac" none none
    ∷ []

fields_36_to_43 : List Field
fields_36_to_43 =
    field "local_modes" 93 single uint64 none "local_modes" none none
    ∷ field "local_bad" 94 single uint64 none "local_bad" none none
    ∷ field "local_unknown_icao" 95 single uint64 none "local_unknown_icao" none none
    ∷ field "local_strong_signals" 96 single uint64 none "local_strong_signals" none none
    ∷ field "local_signal" 97 single float none "local_signal" none none
    ∷ field "local_noise" 98 single float none "local_noise" none none
    ∷ field "local_peak_signal" 99 single float none "local_peak_signal" none none
    ∷ field "local_accepted" 100 single uint64 none "local_accepted" none none
    ∷ []

unfoldable pub field_descriptors : List Field
unfolding fields_0_to_11 fields_12_to_23 fields_24_to_35 fields_36_to_43
field_descriptors = fields_0_to_11 ++ (fields_12_to_23 ++ (fields_24_to_35 ++ fields_36_to_43))

unfoldable pub field_indices_by_name : List ℕ
field_indices_by_name =
    5 ∷ 15 ∷ 27 ∷ 17 ∷ 16 ∷ 18 ∷ 20 ∷ 19 ∷ 22 ∷ 21 ∷ 25 ∷ 23 ∷ 24 ∷ 26 ∷ 14 ∷ 13 ∷ 11 ∷ 12 ∷ 43 ∷ 37
    ∷ 35 ∷ 36 ∷ 41 ∷ 42 ∷ 34 ∷ 33 ∷ 40 ∷ 39 ∷ 38 ∷ 3 ∷ 4 ∷ 2 ∷ 32 ∷ 30 ∷ 28 ∷ 29 ∷ 31 ∷ 0 ∷ 1 ∷ 9
    ∷ 6 ∷ 7 ∷ 10 ∷ 8 ∷ []

unfoldable pub number_ranges : List Range
number_ranges = range 1 0 ∷ range 20 11 ∷ range 40 14 ∷ range 70 28 ∷ range 90 33 ∷ range 0 44 ∷ []

unfoldable pub descriptor : Descriptor
unfolding field_descriptors field_indices_by_name number_ranges
descriptor = record {
  name = "StatisticEntry";
  short_name = "StatisticEntry";
  c_name = "StatisticEntry";
  package_name = "";
  n_fields = 44;
  fields = field_descriptors;
  fields_sorted_by_name = field_indices_by_name;
  n_field_ranges = 5;
  field_ranges = number_ranges;
}

-- The members of the struct behind `base`.
unfoldable pub members : List String
members =
    "start" ∷ "stop" ∷ "messages" ∷ "max_distance_in_metres" ∷ "max_distance_in_nautical_miles"
    ∷ "altitude_suppressed" ∷ "tracks_new" ∷ "tracks_single_message" ∷ "tracks_with_position"
    ∷ "tracks_mlat_position" ∷ "tracks_tisb_position" ∷ "cpu_demod" ∷ "cpu_reader"
    ∷ "cpu_background" ∷ "cpr_surface" ∷ "cpr_airborne" ∷ "cpr_global_ok" ∷ "cpr_global_bad"
    ∷ "cpr_global_range" ∷ "cpr_global_speed" ∷ "cpr_global_skipped" ∷ "cpr_local_ok"
    ∷ "cpr_local_aircraft_relative" ∷ "cpr_local_receiver_relative" ∷ "cpr_local_skipped"
    ∷ "cpr_local_range" ∷ "cpr_local_speed" ∷ "cpr_filtered" ∷ "remote_modeac" ∷ "remote_modes"
    ∷ "remote_bad" ∷ "remote_unknown_icao" ∷ "remote_accepted" ∷ "local_samples_processed"
    ∷ "local_samples_dropped" ∷ "local_modeac" ∷ "local_modes" ∷ "local_bad" ∷ "local_unknown_icao"
    ∷ "local_strong_signals" ∷ "local_signal" ∷ "local_noise" ∷ "local_peak_signal"
    ∷ "local_accepted" ∷ []

unfoldable pub declared : List Declared
declared =
    declare "start" 1 single uint64
    ∷ declare "stop" 2 single uint64
    ∷ declare "messages" 3 single uint64
    ∷ declare "max_distance_in_metres" 4 single uint32
    ∷ declare "max_distance_in_nautical_miles" 5 single uint32
    ∷ declare "altitude_suppressed" 6 single uint64
    ∷ declare "tracks_new" 7 single uint64
    ∷ declare "tracks_single_message" 8 single uint64
    ∷ declare "tracks_with_position" 9 single uint64
    ∷ declare "tracks_mlat_position" 10 single uint64
    ∷ declare "tracks_tisb_position" 11 single uint64
    ∷ declare "cpu_demod" 20 single uint64
    ∷ declare "cpu_reader" 21 single uint64
    ∷ declare "cpu_background" 22 single uint64
    ∷ declare "cpr_surface" 40 single uint64
    ∷ declare "cpr_airborne" 41 single uint64
    ∷ declare "cpr_global_ok" 42 single uint64
    ∷ declare "cpr_global_bad" 43 single uint64
    ∷ declare "cpr_global_range" 44 single uint64
    ∷ declare "cpr_global_speed" 45 single uint64
    ∷ declare "cpr_global_skipped" 46 single uint64
    ∷ declare "cpr_local_ok" 47 single uint64
    ∷ declare "cpr_local_aircraft_relative" 48 single uint64
    ∷ declare "cpr_local_receiver_relative" 49 single uint64
    ∷ declare "cpr_local_skipped" 50 single uint64
    ∷ declare "cpr_local_range" 51 single uint64
    ∷ declare "cpr_local_speed" 52 single uint64
    ∷ declare "cpr_filtered" 53 single uint64
    ∷ declare "remote_modeac" 70 single uint64
    ∷ declare "remote_modes" 71 single uint64
    ∷ declare "remote_bad" 72 single uint64
    ∷ declare "remote_unknown_icao" 73 single uint64
    ∷ declare "remote_accepted" 74 single uint64
    ∷ declare "local_samples_processed" 90 single uint64
    ∷ declare "local_samples_dropped" 91 single uint64
    ∷ declare "local_modeac" 92 single uint64
    ∷ declare "local_modes" 93 single uint64
    ∷ declare "local_bad" 94 single uint64
    ∷ declare "local_unknown_icao" 95 single uint64
    ∷ declare "local_strong_signals" 96 single uint64
    ∷ declare "local_signal" 97 single float
    ∷ declare "local_noise" 98 single float
    ∷ declare "local_peak_signal" 99 single float
    ∷ declare "local_accepted" 100 single uint64
    ∷ []

-- The descriptor beside the struct and the declaration that it must agree with.
unfoldable pub table : Table
unfolding descriptor members declared
table = record { descriptor = descriptor; members = members; declared = declared }
