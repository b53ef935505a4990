-- ===== src/ReadSb/Messages/Initials.antt =====
-- The initial values and the functions of each message of src/mwp/readsb.pb-c.c: which descriptor each
-- of them names. A nested message has its initial values only.
use mwptools.Common.{Option, none, some, List, [], ◌∷◌, ◌++◌, replicate}
use mwptools.ReadSb.Messages.{Functions, Initial}

abbrev pub aircraft_meta_nav_modes_init : Initial
aircraft_meta_nav_modes_init = record {
  descriptor = "aircraft_meta__nav_modes__descriptor";
  values = replicate 6 "0";
}

abbrev pub aircraft_meta_valid_source_init : Initial
aircraft_meta_valid_source_init = record {
  descriptor = "aircraft_meta__valid_source__descriptor";
  values = replicate 33 "0";
}

abbrev pub aircraft_meta_init : Initial
aircraft_meta_init = record {
  descriptor = "aircraft_meta__descriptor";
  values =
      ("0" ∷ [])
      ++ ("(char *)protobuf_c_empty_string" ∷ [])
      ++ replicate 11 "0"
      ++ ("AIRCRAFT_META__AIR_GROUND__AG_INVALID" ∷ [])
      ++ replicate 29 "0"
      ++ ("AIRCRAFT_META__ADDR_TYPE__ADDR_ADSB_ICAO" ∷ [])
      ++ ("AIRCRAFT_META__EMERGENCY__EMERGENCY_NONE" ∷ [])
      ++ ("AIRCRAFT_META__SIL_TYPE__SIL_INVALID" ∷ [])
      ++ ("NULL" ∷ [])
      ++ ("NULL" ∷ []);
}

abbrev pub aircraft_meta_functions : Functions
aircraft_meta_functions = record {
  get_packed_size = "aircraft_meta__descriptor";
  pack = "aircraft_meta__descriptor";
  pack_to_buffer = "aircraft_meta__descriptor";
  unpack = "aircraft_meta__descriptor";
  free_unpacked = "aircraft_meta__descriptor";
}

abbrev pub aircraft_history_init : Initial
aircraft_history_init = record {
  descriptor = "aircraft_history__descriptor";
  values = replicate 4 "0";
}

abbrev pub aircraft_history_functions : Functions
aircraft_history_functions = record {
  get_packed_size = "aircraft_history__descriptor";
  pack = "aircraft_history__descriptor";
  pack_to_buffer = "aircraft_history__descriptor";
  unpack = "aircraft_history__descriptor";
  free_unpacked = "aircraft_history__descriptor";
}

abbrev pub aircrafts_update_init : Initial
aircrafts_update_init = record {
  descriptor = "aircrafts_update__descriptor";
  values = replicate 3 "0" ++ ("NULL" ∷ []) ++ ("0" ∷ []) ++ ("NULL" ∷ []);
}

abbrev pub aircrafts_update_functions : Functions
aircrafts_update_functions = record {
  get_packed_size = "aircrafts_update__descriptor";
  pack = "aircrafts_update__descriptor";
  pack_to_buffer = "aircrafts_update__descriptor";
  unpack = "aircrafts_update__descriptor";
  free_unpacked = "aircrafts_update__descriptor";
}

abbrev pub receiver_init : Initial
receiver_init = record {
  descriptor = "receiver__descriptor";
  values = ("(char *)protobuf_c_empty_string" ∷ []) ++ replicate 10 "0";
}

abbrev pub receiver_functions : Functions
receiver_functions = record {
  get_packed_size = "receiver__descriptor";
  pack = "receiver__descriptor";
  pack_to_buffer = "receiver__descriptor";
  unpack = "receiver__descriptor";
  free_unpacked = "receiver__descriptor";
}

abbrev pub statistic_entry_init : Initial
statistic_entry_init = record {
  descriptor = "statistic_entry__descriptor";
  values = replicate 44 "0";
}

abbrev pub statistic_entry_functions : Functions
statistic_entry_functions = record {
  get_packed_size = "statistic_entry__descriptor";
  pack = "statistic_entry__descriptor";
  pack_to_buffer = "statistic_entry__descriptor";
  unpack = "statistic_entry__descriptor";
  free_unpacked = "statistic_entry__descriptor";
}

abbrev pub statistics_polar_range_entry_init : Initial
statistics_polar_range_entry_init = record {
  descriptor = "statistics__polar_range_entry__descriptor";
  values = ("0" ∷ []) ++ ("0" ∷ []);
}

abbrev pub statistics_init : Initial
statistics_init = record {
  descriptor = "statistics__descriptor";
  values = replicate 5 "NULL" ++ ("0" ∷ []) ++ ("NULL" ∷ []);
}

abbrev pub statistics_functions : Functions
statistics_functions = record {
  get_packed_size = "statistics__descriptor";
  pack = "statistics__descriptor";
  pack_to_buffer = "statistics__descriptor";
  unpack = "statistics__descriptor";
  free_unpacked = "statistics__descriptor";
}

-- The messages, in the order of their descriptors.
unfoldable pub initials : List Initial
initials =
    aircraft_meta_nav_modes_init ∷ aircraft_meta_valid_source_init ∷ aircraft_meta_init
    ∷ aircraft_history_init ∷ aircrafts_update_init ∷ receiver_init ∷ statistic_entry_init
    ∷ statistics_polar_range_entry_init ∷ statistics_init ∷ []

unfoldable pub functions : List (Option Functions)
functions =
    none
    ∷ none
    ∷ some aircraft_meta_functions
    ∷ some aircraft_history_functions
    ∷ some aircrafts_update_functions
    ∷ some receiver_functions
    ∷ some statistic_entry_functions
    ∷ none
    ∷ some statistics_functions
    ∷ []
