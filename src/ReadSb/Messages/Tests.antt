-- ===== src/ReadSb/Messages/Tests.antt =====
-- The functions of a message of src/mwp/readsb.pb-c.c, with a library whose messages are their bytes and
-- whose memory is the number of messages in it.
use mwptools.Common.{ℕ, ◌-◌, ◌≡◌, refl, some, none, List, [], ◌∷◌, length}
use mwptools.Common.CString.{codes}
use mwptools.Common.Result.{ok, fault, assertion}
use mwptools.ReadSb.Tables.{messages}
use mwptools.ReadSb.Tables.AircraftsUpdate
use mwptools.ReadSb.Messages.{
  Message, Library, get_packed_size, pack, pack_to_buffer, unpack, free_unpacked,
}
use mwptools.ReadSb.Messages.Initials.{
  initials, functions, aircrafts_update_init, aircrafts_update_functions, receiver_functions,
}
use mwptools.ReadSb.Messages.Defaults.{symbol, defaults}
use mwptools.ReadSb.Messages.Own.{messages-functions}

abbrev bytes_library : Library (List ℕ) ℕ
bytes_library = record {
  packed_size = λ m. length m.members;
  pack = λ m. m.members;
  unpack = λ d bytes. some (record { descriptor = d; members = bytes });
  free_unpacked = λ m messages. messages - 1;
}

abbrev update : Message (List ℕ)
update = record { descriptor = "aircrafts_update__descriptor"; members = 8 ∷ 1 ∷ [] }

other_message : pack bytes_library receiver_functions update ≡ fault assertion
unfolding pack
other_message = refl

messages-functions_example :
    (pack bytes_library aircrafts_update_functions update ≡ ok (8 ∷ 1 ∷ []))
    × (pack_to_buffer bytes_library aircrafts_update_functions update ≡ ok (8 ∷ 1 ∷ []))
    × (get_packed_size bytes_library aircrafts_update_functions update ≡ ok 2)
    × (unpack bytes_library aircrafts_update_functions (8 ∷ 1 ∷ []) ≡ some update)
    × (free_unpacked bytes_library aircrafts_update_functions (some update) 3 ≡ ok 2)
    × (free_unpacked bytes_library aircrafts_update_functions none 3 ≡ ok 3)
    × (codes "aircrafts_update__descriptor" ≡ symbol AircraftsUpdate.table)
    × (aircrafts_update_init.values ≡ defaults AircraftsUpdate.table)
unfolding messages initials functions
messages-functions_example =
    messages-functions bytes_library update (8 ∷ 1 ∷ []) 3 4 {t = AircraftsUpdate.table}
      {i = aircrafts_update_init} {f = aircrafts_update_functions} refl refl refl
