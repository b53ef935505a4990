-- ===== src/ReadSb/Tables.antt =====
-- The message and enum descriptors of src/mwp/readsb.pb-c.c, a module for each message.
pub mod AircraftMetaNavModes
pub mod AircraftMetaValidSource
pub mod AircraftMeta
pub mod AircraftHistory
pub mod AircraftsUpdate
pub mod Receiver
pub mod StatisticEntry
pub mod StatisticsPolarRangeEntry
pub mod Statistics
pub mod Enums
pub mod Numbers
pub mod Names
pub mod Values
mod Tests
use mwptools.Common.{List, [], ◌∷◌}
use mwptools.ReadSb.Descriptor.{Table}

unfoldable pub messages : List Table
unfolding AircraftMetaNavModes.table AircraftMetaValidSource.table AircraftMeta.table
    AircraftHistory.table AircraftsUpdate.table Receiver.table StatisticEntry.table
    StatisticsPolarRangeEntry.table Statistics.table
messages =
    AircraftMetaNavModes.table ∷ AircraftMetaValidSource.table ∷ AircraftMeta.table
    ∷ AircraftHistory.table ∷ AircraftsUpdate.table ∷ Receiver.table ∷ StatisticEntry.table
    ∷ StatisticsPolarRangeEntry.table ∷ Statistics.table ∷ []
