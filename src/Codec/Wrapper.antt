-- ===== src/Codec/Wrapper.antt =====
-- codec/wrapper.py: `PacketWrapper`. `_user` is the connection, of a type `U` of the caller's.
pub mod Fields
pub mod Whole
pub mod Chunk
pub mod Swaps
pub mod Flow
pub mod Changes
use endweave.Prelude.{ℕ, Bool, true, false, Option, none, some, List, [], ◌++◌, if◌then◌else◌}
use endweave.Exec.{Exec, Result, ok, raised, runtime_error, raise, ◌>>=◌, ◌>>◌, pure}
use endweave.Codec.Reader
use endweave.Codec.Reader.{PacketReader, Read, read_remaining}
use endweave.Codec.Writer
use endweave.Codec.Writer.{PacketWriter, Write, write_bytes}
use endweave.Codec.FieldType.{FieldType}

pub record PacketWrapper (U : Type 0) : Type 0 where
  pub reader : PacketReader
  pub writer : PacketWriter
  pub cancelled : Bool
  pub connection : Option U

-- `read_remaining` always returns.
abbrev unread : Result (List ℕ) → List ℕ
unread (ok bs) = bs
unread (raised e) = []

module _ {U : Type 0} where
  -- `PacketWrapper(payload, user)`
  abbrev pub wrap : List ℕ → Option U → PacketWrapper U
  wrap payload user = record {
    reader = record { bytes = payload; position = 0 };
    writer = Writer.empty;
    cancelled = false;
    connection = user;
  }

  -- Work on one of the two buffers.
  abbrev pub on_reader : {A : Type 0} → Read A → Exec (PacketWrapper U) A
  on_reader m w = ((m w.reader).0, record w { reader = (m w.reader).1 })

  abbrev pub on_writer : Write → Exec (PacketWrapper U) (Unit {0})
  on_writer m w = ((m w.writer).0, record w { writer = (m w.writer).1 })

  -- The property `user`.
  abbrev pub found : Option U → Exec (PacketWrapper U) U
  found none = raise runtime_error
  found (some u) = pure u

  unfoldable pub user : Exec (PacketWrapper U) U
  user w = found w.connection w

  -- The connection is an object that handlers change in place.
  unfoldable pub set_user : U → Exec (PacketWrapper U) (Unit {0})
  set_user u w = (ok tt, record w { connection = some u })

  unfoldable pub cancel : Exec (PacketWrapper U) (Unit {0})
  cancel w = (ok tt, record w { cancelled = true })

  unfoldable pub read : {A : Type 0} → FieldType A → Exec (PacketWrapper U) A
  read field_type = on_reader field_type.read

  unfoldable pub write : {A : Type 0} → FieldType A → A → Exec (PacketWrapper U) (Unit {0})
  write field_type value = on_writer (field_type.write value)

  unfoldable pub map : {A : Type 0} → FieldType A → FieldType A → Exec (PacketWrapper U) A
  map old_type new_type = do
    value ← on_reader old_type.read
    on_writer (new_type.write value)
    pure value

  unfoldable pub passthrough : {A : Type 0} → FieldType A → Exec (PacketWrapper U) A
  passthrough field_type = do
    value ← on_reader field_type.read
    on_writer (field_type.write value)
    pure value

  unfoldable pub passthrough_all : Exec (PacketWrapper U) (List ℕ)
  passthrough_all = do
    remaining ← on_reader read_remaining
    on_writer (write_bytes remaining)
    pure remaining

  abbrev pub has_remaining : PacketWrapper U → Bool
  has_remaining w = Reader.has_remaining w.reader

  -- `if test: ...`, in a handler.
  abbrev pub when : Bool → Exec (PacketWrapper U) (Unit {0}) → Exec (PacketWrapper U) (Unit {0})
  when true m = m
  when false m = pure tt

  -- The payload: the bytes written, and the unread ones behind them.
  unfoldable pub to_bytes : PacketWrapper U → List ℕ
  unfolding read_remaining write_bytes
  to_bytes w =
      if has_remaining w
      then Writer.to_bytes (write_bytes (unread (read_remaining w.reader).0) w.writer).1
      else Writer.to_bytes w.writer
