-- ===== src/Codec.antt =====
-- src/endstone_endweave/codec: reading and writing packet payloads.
pub mod Utf8
pub mod Word
pub mod Leb128
pub mod Reader
pub mod Writer
pub mod Zigzag
pub mod FieldType
pub mod Wrapper
pub mod Nbt
pub mod ItemInstance
pub mod ActorData
pub mod InventoryAction
pub mod StructureSettings
pub mod Gameplay
pub mod LevelSettings
pub mod Spline
