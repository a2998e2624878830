-- ===== src/Steps.antt =====
-- protocol/v*_to_v*: the translation steps between two versions.
pub mod Flags
pub mod PacketIds
pub mod Mappings
pub mod Tables
pub mod V924ToV944
pub mod V944ToV924
pub mod V944ToV975
pub mod V975ToV1001
pub mod Rounds
pub mod Positions
pub mod Maps
pub mod Legacy
pub mod Clients
pub mod Cameras
pub mod Start
pub mod Appended
pub mod Whole944
pub mod Actions
pub mod Transactions
pub mod Sounds
pub mod Chunks
pub mod Consumed
pub mod BossBodies
pub mod BossWrites
pub mod Bosses
pub mod Items
pub mod Joined
pub mod Movement
pub mod Enchants
pub mod Slots
pub mod Relayed
