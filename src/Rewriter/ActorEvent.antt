-- ===== src/Rewriter/ActorEvent.antt =====
-- rewriter/actor_event.py: `ActorEventRewriter`.
pub mod Events
use endweave.Prelude.{ℕ, Bool, true, false, ◌+◌, ◌&&◌, ℤ, pos, leb_ℤ, ltb_ℤ, ◌+ℤ◌, if◌then◌else◌}
use endweave.Exec.{◌>>=◌, ◌>>◌}
use endweave.Codec.FieldType.{byte, uvar_int64}
use endweave.Codec.Wrapper.{read, write, passthrough, cancel}
use endweave.Protocol.{PacketHandler, Protocol, clientbound}
use endweave.Protocol
use endweave.Protocol.MappingData.{IdShift, shift_up, shift_down}

abbrev pub actor_event : ℕ
actor_event = 27

pub record ActorEventRewriter : Type 0 where
  pub shift : IdShift
  pub upgrade : Bool

unfoldable pub rewrite_upgrade : ActorEventRewriter → PacketHandler
rewrite_upgrade self = do
  _ ← passthrough uvar_int64
  event_id ← read byte
  write byte (shift_up self.shift event_id)

-- `insert_at <= event_id < insert_at + count`
abbrev pub is_inserted_event : IdShift → ℤ → Bool
is_inserted_event shift event_id =
    leb_ℤ shift.insert_at event_id && ltb_ℤ event_id (shift.insert_at +ℤ shift.count)

unfoldable pub rewrite_downgrade : ActorEventRewriter → PacketHandler
rewrite_downgrade self = do
  _ ← passthrough uvar_int64
  event_id ← read byte
  if is_inserted_event self.shift event_id
      then cancel
      else write byte (shift_down self.shift event_id)

unfoldable pub register : ActorEventRewriter → Protocol → Protocol
register self protocol =
    Protocol.register clientbound actor_event
      (if self.upgrade then rewrite_upgrade self else rewrite_downgrade self) protocol
