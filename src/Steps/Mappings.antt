-- ===== src/Steps/Mappings.antt =====
-- protocol/mappings: which numbers each version inserted, and the numbers of codec/types/enums.py
-- that they start at.
use endweave.Prelude.{none, some, [], ◌∷◌, ℤ, pos}
use endweave.Protocol.MappingData.{IdShift, inserted, MappingData}

-- `ActorDataIDs.HEARTBEAT_SOUND_EVENT`
abbrev pub heartbeat_sound_event : ℤ
heartbeat_sound_event = pos 126

-- `LevelSoundEvent.UNDEFINED_V860` and `ActorEvent.KINETIC_DAMAGE_DEALT`
abbrev pub v860_v898 : MappingData
v860_v898 = record {
  sound = inserted (pos 12) (pos 566);
  actor_data_sound_key = heartbeat_sound_event;
  actor_event = some (inserted (pos 1) (pos 80));
  note_instrument = none;
  dropped_actor_data_keys = [];
}

-- `LevelSoundEvent.UNDEFINED_V898`
abbrev pub v898_v924 : MappingData
v898_v924 = record {
  sound = inserted (pos 19) (pos 578);
  actor_data_sound_key = heartbeat_sound_event;
  actor_event = none;
  note_instrument = none;
  dropped_actor_data_keys = pos 136 ∷ pos 137 ∷ pos 138 ∷ [];
}

-- `NoteBlockInstrument.TRUMPET`
abbrev pub trumpet : ℤ
trumpet = pos 16

abbrev pub note_instrument_v944 : IdShift
note_instrument_v944 = inserted (pos 4) trumpet

-- `LevelSoundEvent.UNDEFINED_V924`
abbrev pub v924_v944 : MappingData
v924_v944 = record {
  sound = inserted (pos 2) (pos 597);
  actor_data_sound_key = heartbeat_sound_event;
  actor_event = none;
  note_instrument = some note_instrument_v944;
  dropped_actor_data_keys = [];
}

-- `_TRUMPET_SHIFT`
abbrev pub trumpet_shift : ℤ
trumpet_shift = note_instrument_v944.count

-- `LevelSoundEvent.UNDEFINED_V944`
abbrev pub v944_v975 : MappingData
v944_v975 = record {
  sound = inserted (pos 2) (pos 599);
  actor_data_sound_key = heartbeat_sound_event;
  actor_event = none;
  note_instrument = none;
  dropped_actor_data_keys = [];
}
