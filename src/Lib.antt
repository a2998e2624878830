-- ===== src/Lib.antt =====
-- Endweave: a model of the packet translation of the endweave plugin, and the theorems on it.
--
-- The plugin sits between a Bedrock server and clients of other versions. Each packet event goes to
-- the pipeline (src/endstone_endweave/pipeline.py), which looks up the connection of its address
-- (connection.py), builds the connection's list of protocols once its version is known (the base
-- protocols, and a chain of version steps that the manager of protocol/manager.py finds), and runs
-- the packet through it: a protocol (protocol/__init__.py) calls the handler that is registered for
-- the packet's number, and the handler reads, writes and passes on fields through a wrapper
-- (codec/wrapper.py) around a reader and a writer (codec/reader.py, codec/writer.py).
--
-- Which file models which part, with paths under src/endstone_endweave:
--   Prelude, Exec          Python's integers, dicts and exceptions; a method that changes an object
--                          is a function of the object's state to a result and the state, and what
--                          was changed before an exception stays changed
--   Codec.Utf8, Codec.Word what Python's str, bytes and struct do
--   Codec.Reader           codec/reader.py, PacketReader
--   Codec.Writer           codec/writer.py, PacketWriter
--   Codec.FieldType        codec/types/primitives.py; the source's class Type
--   Codec.Nbt              codec/types/nbt.py
--   Codec.ItemInstance     codec/types/item.py
--   Codec.ActorData        codec/types/actor_data.py
--   Codec.InventoryAction  codec/types/inventory.py
--   Codec.StructureSettings codec/types/structure.py
--   Codec.Gameplay         codec/types/gameplay.py
--   Codec.LevelSettings    codec/types/level_settings.py
--   Codec.Spline           codec/types/camera.py
--   Codec.Wrapper          codec/wrapper.py, PacketWrapper
--   Connection             connection.py, UserConnection and ConnectionManager
--   Protocol               protocol/__init__.py and protocol/direction.py
--   Protocol.Manager       protocol/manager.py, ProtocolManager
--   Protocol.MappingData   protocol/mapping_data.py
--   Protocol.Base          protocol/base.py
--   Rewriter.ActorEvent    rewriter/actor_event.py
--   Rewriter.Sound         rewriter/sound.py
--   Steps.Mappings         protocol/mappings
--   Steps.PacketIds        protocol/packet_ids.py
--   Steps.V924ToV944       protocol/v924_to_v944: protocol.py, and below it the handlers
--   Steps.V944ToV924       protocol/v944_to_v924
--   Steps.V944ToV975       protocol/v944_to_v975
--   Steps.V975ToV1001      protocol/v975_to_v1001
--   Pipeline               pipeline.py, ProtocolPipeline
--   Plugin                 plugin.py, EndweavePlugin: its start, its login gate, and departures;
--                          Plugin.Gate is the gate with the connections of the pipeline
-- The names are the source's, in snake case; a method that clashes with another is in its module.
--
-- Fuel: the loops of the varints have one round for each seven bits of the number (five and ten
-- rounds), `_bfs` has one for each registered protocol and one more, the loop of an NBT compound has
-- one for each byte of the payload and one more, the loop over a set of bits has one for each byte
-- that is left and one more, and NBT's nesting is bounded by the source's own limit of 512. The exception `diverges` stands for a loop that ran out.
--
-- Floats are bit patterns (that CPython quiets a signalling NaN is not modelled), texts are lists of code points, bytes are numbers below 256. The objects
-- that handlers store in a connection are known by class and identity alone. Endstone's events are
-- records, its logger a list of what was logged.
--
-- The other modules of Steps hold the theorems: Positions, Maps, Legacy, Clients, Cameras, Start and
-- Appended on the handlers between v924 and v944, and Whole944 on both protocols; Movement, Enchants
-- and Slots on those of v975; Actions, Transactions, Sounds, Chunks, Items, Joined, Consumed,
-- BossBodies, BossWrites and Bosses on those of v1001; Relayed on two steps in a row.
--
-- A handler is a function of the wrapper. What a handler does to a packet is said by the packet's
-- chunks (Codec.Wrapper.Chunk): the bytes of each of its parts as they are sent, as they arrive, and
-- as the handler of the opposite direction sends them back. Swaps (Codec.Wrapper.Swaps) relates two
-- handlers to a chunk and is closed under their sequence, loops and branches; Rounds (Steps.Rounds)
-- is that for whole packets. A field (Field) is a value with bytes that its type reads and writes,
-- whatever follows them. Texts of tables are lists of code points.
--
-- Not modelled: the handlers of the version steps below v924, and those of CraftingData and
-- ClientboundAttributeLayerSync in protocol/v944_to_v975, which its protocol takes as given, with the
-- field types that only they use (the plugin's start takes the protocols of the steps as given);
-- debug output and the files of crash dumps (debug.py, and parts of pipeline.py); the text of error
-- reports (exception.py); the update check and the metrics, which are network input and output;
-- tables of constants but for those that the modelled handlers read.
pub mod Prelude
pub mod Exec
pub mod Codec
pub mod Connection
pub mod Protocol
pub mod Rewriter
pub mod Steps
pub mod Pipeline
pub mod Plugin
pub mod Examples
