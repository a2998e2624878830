-- ===== src/Rewriter/ActorEvent/Events.antt =====
-- rewriter/actor_event.py: an event on the way up and on the way down.
use endweave.Prelude.{
  ℕ, ◌^◌, ◌<◌, ◌≡◌, refl, true, false, Option, List, [], ◌∷◌, ◌++◌, ℤ, pos, mask, leb_ℤ, arith,
}
use endweave.Exec.{ok}
use endweave.Codec.Leb128.{groups}
use endweave.Codec.FieldType.{byte, uvar_int64}
use endweave.Codec.FieldType.Primitives.{Codes-byte}
use endweave.Codec.FieldType.Variable.{Codes-uvar_int64}
use endweave.Codec.Writer.{write_byte}
use endweave.Codec.Writer.View.{Writes, Writes-write_bytes}
use endweave.Codec.Wrapper.{wrap, read, passthrough, cancel}
use endweave.Codec.Wrapper.Fields.{
  moved, Rewrites, Rewrites-bind, Rewrites-passthrough, Rewrites-read,
}
use endweave.Codec.Wrapper.Whole.{Rewrites-written}
use endweave.Codec.Reader.View.{Holds-advance}
use endweave.Protocol.Base.Detect.{start_Holds}
use endweave.Protocol.MappingData.{IdShift, shift_up, shift_down}
use endweave.Protocol.MappingData.Shift.{shift_up_lossless}
use endweave.Connection.{User}
use endweave.Rewriter.ActorEvent.{
  ActorEventRewriter, rewrite_upgrade, rewrite_downgrade, is_inserted_event,
}

Writes-write_byte : (v : ℤ) → Writes (write_byte v) (mask v 256 ∷ [])
unfolding write_byte
Writes-write_byte v = Writes-write_bytes (mask v 256 ∷ [])

mask_byte : (n : ℕ) → n < 256 → mask (pos n) 256 ≡ n
mask_byte n h = ground arith

module _ (self : ActorEventRewriter) (id event_id : ℕ) (small_id : id < 2 ^ 64)
    (small_event : event_id < 256) where
  -- On the way up only the event's byte changes, to the shifted number (its low eight bits).
  pub rewrite_upgrade_lem :
      Rewrites
        (rewrite_upgrade self)
        (groups 9 id ++ (event_id ∷ []))
        (groups 9 id ++ (mask (shift_up self.shift (pos event_id)) 256 ∷ []))
        tt
  unfolding rewrite_upgrade
  rewrite_upgrade_lem =
      Rewrites-bind (passthrough uvar_int64) _
        (Rewrites-passthrough uvar_int64 (pos id) (groups 9 id) (Codes-uvar_int64 id small_id))
        (Rewrites-bind (read byte) _
          (Rewrites-read byte (pos event_id) (event_id ∷ []) (Codes-byte event_id small_event))
          (Rewrites-written byte (shift_up self.shift (pos event_id)) _ (Writes-write_byte _)))

  -- On the way down an event that the older version has gets its number there.
  pub rewrite_downgrade_lem :
      is_inserted_event self.shift (pos event_id) ≡ false
      → Rewrites
          (rewrite_downgrade self)
          (groups 9 id ++ (event_id ∷ []))
          (groups 9 id ++ (mask (shift_down self.shift (pos event_id)) 256 ∷ []))
          tt
  unfolding rewrite_downgrade
  rewrite_downgrade_lem known =
      Rewrites-bind (passthrough uvar_int64) _
        (Rewrites-passthrough uvar_int64 (pos id) (groups 9 id) (Codes-uvar_int64 id small_id))
        (Rewrites-bind (read byte) _
          (Rewrites-read byte (pos event_id) (event_id ∷ []) (Codes-byte event_id small_event))
          (rw known
            (Rewrites-written byte (shift_down self.shift (pos event_id)) _ (Writes-write_byte _))))

  -- An event that the older version does not have is cancelled.
  pub rewrite_downgrade_unknown :
      (rest : List ℕ) (u : Option User)
      → is_inserted_event self.shift (pos event_id) ≡ true
      → let result = rewrite_downgrade self (wrap (groups 9 id ++ (event_id ∷ rest)) u) in
        (result.0 ≡ ok tt) × (result.1.cancelled ≡ true)
  unfolding rewrite_downgrade cancel
  rewrite_downgrade_unknown rest u unknown =
      let w = wrap (groups 9 id ++ (event_id ∷ rest)) u in
      let h = start_Holds (groups 9 id ++ (event_id ∷ rest)) u in
      let first =
        Rewrites-passthrough {U = User} uvar_int64 (pos id) (groups 9 id)
          (Codes-uvar_int64 id small_id) in
      let second =
        Rewrites-read {U = User} byte (pos event_id) (event_id ∷ [])
          (Codes-byte event_id small_event) in
      rw (first.at w (event_id ∷ rest) h) (
        rw
          (second.at (moved w (groups 9 id) (groups 9 id)) rest
            (Holds-advance w.reader (groups 9 id) (event_id ∷ rest) h))
          (rw unknown (refl, refl)))

-- The way up and the way down with the same shift: an event of the older version whose shifted number
-- fits a byte comes back as it was, and no packet is cancelled.
pub upgrade-downgrade :
    (shift : IdShift) (id event_id shifted : ℕ)
    → id < 2 ^ 64
    → event_id < 256
    → shifted < 256
    → leb_ℤ (pos 0) shift.count ≡ true
    → shift_up shift (pos event_id) ≡ pos shifted
    → Rewrites
        (rewrite_upgrade (record { shift = shift; upgrade = true }))
        (groups 9 id ++ (event_id ∷ []))
        (groups 9 id ++ (shifted ∷ []))
        tt
      × Rewrites
          (rewrite_downgrade (record { shift = shift; upgrade = false }))
          (groups 9 id ++ (shifted ∷ []))
          (groups 9 id ++ (event_id ∷ []))
          tt
upgrade-downgrade shift id event_id shifted small_id small_event fits positive e =
    let (back, known) = rw e at (shift_up_lossless shift (pos event_id) positive) in
    let up : ActorEventRewriter = record { shift = shift; upgrade = true } in
    let down : ActorEventRewriter = record { shift = shift; upgrade = false } in
    (
      rw (e, mask_byte shifted fits) at (rewrite_upgrade_lem up id event_id small_id small_event),
      rw (back, mask_byte event_id small_event) at
          (rewrite_downgrade_lem down id shifted small_id fits known),
    )
