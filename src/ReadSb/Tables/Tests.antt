-- ===== src/ReadSb/Tables/Tests.antt =====
-- The theorems on the tables of src/mwp/readsb.pb-c.c at some of their entries.
use mwptools.Common.{ℕ, ◌≡◌, refl, true, none, some, get_elem?, length, arith}
use mwptools.ReadSb.Descriptor.{Field, declare, repeated, message, EnumValue, range_index}
use mwptools.ReadSb.Descriptor.Order.{strcmp_ltb}
use mwptools.ReadSb.Tables.{messages}
use mwptools.ReadSb.Tables.AircraftsUpdate
use mwptools.ReadSb.Tables.Enums.{enums, air_ground_descriptor, air_ground_declared}
use mwptools.ReadSb.Tables.Numbers.{as_declared, is_stored, messages-numbered}
use mwptools.ReadSb.Tables.Names.{messages-by_name}
use mwptools.ReadSb.Tables.Values.{enums-indexed}

-- The field 15 of an update, the aircraft; and a number that no field has.
messages-numbered_example :
    ((f : Field) × (range_index AircraftsUpdate.number_ranges 15 ≡ some 3)
      × (get_elem? AircraftsUpdate.field_descriptors 3 ≡ some f)
      × (as_declared f ≡ declare "aircraft" 15 repeated message)
      × (is_stored AircraftsUpdate.members f ≡ true))
    × (range_index AircraftsUpdate.number_ranges 3 ≡ none)
unfolding messages
messages-numbered_example =
    messages-numbered 4 3 3 {t = AircraftsUpdate.table} {d = declare "aircraft" 15 repeated message}
      refl refl refl

messages-by_name_example :
    ((f g : Field) × (get_elem? AircraftsUpdate.field_descriptors 3 ≡ some f)
      × (get_elem? AircraftsUpdate.field_descriptors 1 ≡ some g)
      × (strcmp_ltb f.name g.name ≡ true))
    × (length AircraftsUpdate.field_indices_by_name ≡ 4)
    × (p : ℕ) × (get_elem? AircraftsUpdate.field_indices_by_name p ≡ some 1)
unfolding messages
messages-by_name_example =
    messages-by_name 4 0 2 1 {t = AircraftsUpdate.table} refl (omega arith) refl refl refl

enums-indexed_example :
    ((v : EnumValue) × (range_index air_ground_descriptor.value_ranges 2 ≡ some 2)
      × (get_elem? air_ground_descriptor.values 2 ≡ some v)
      × (v.name ≡ "AG_AIRBORNE")
      × (v.value ≡ 2))
    × ((v : EnumValue) × (get_elem? air_ground_descriptor.values 1 ≡ some v)
        × (v.name ≡ "AG_GROUND"))
unfolding enums
enums-indexed_example =
    enums-indexed 0 2 1
      {t = record { descriptor = air_ground_descriptor; declared = air_ground_declared }}
      {d = ("AG_AIRBORNE", 2)} {entry = ("AG_GROUND", 1)} refl refl refl
