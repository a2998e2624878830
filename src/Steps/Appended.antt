-- ===== src/Steps/Appended.antt =====
-- The handlers of v924_to_v944 and v944_to_v924 that append fields to a packet, and strip them.
use endweave.Prelude.{
  ◌▸◌, ℕ, ◌-◌, ◌≡◌, refl, ap, ◌∙◌, some, none, List, [], ◌∷◌, ◌++◌, append-nil, length,
  length-append, length-drop, length-eq_zero, take, pos, arith,
}
use endweave.Exec.{ok, ◌>>=◌}
use endweave.Codec.Word.{to_le}
use endweave.Codec.FieldType.{int_le, optional_type, string, uvar_int, ushort_le, vec3}
use endweave.Codec.FieldType.Codes.{Codes, Field}
use endweave.Codec.FieldType.Primitives.{Codes-int_le, Codes-ushort_le}
use endweave.Codec.FieldType.Compound.{Codes-none, Codes-vec3}
use endweave.Codec.Reader.{read_remaining}
use endweave.Codec.Writer.{write_bytes, empty}
use endweave.Codec.Wrapper.{PacketWrapper, wrap, read, write, passthrough, passthrough_all}
use endweave.Codec.Wrapper.Fields.{
  Rewrites, Rewrites-bind, Rewrites-pure, Rewrites-read, Rewrites-write, Rewrites-passthrough,
  moved, to_bytes-Holds,
}
use endweave.Codec.Reader.View.{Holds, Holds-advance}
use endweave.Codec.Writer.View.{extended}
use endweave.Steps.V944ToV924.Screens.{without_last_two}
use endweave.Codec.Wrapper.Chunk.{same, dropped}
use endweave.Codec.Wrapper.Swaps.{Swaps-same}
use endweave.Codec.Wrapper.Changes.{Swaps-dropped-last}
use endweave.Connection.{User}
use endweave.Protocol.{PacketHandler}
use endweave.Protocol.Base.Detect.{Forwards}
use endweave.Steps.Rounds.{Rounds, Swaps-Rounds, Rewrites-Forwards}
use endweave.Steps.V924ToV944.Screens as Up
use endweave.Steps.V944ToV924.Screens as Down
use endweave.Steps.V924ToV944.Clientbound as Locks
use endweave.Steps.V944ToV924.Clientbound as Unlocks

-- What a handler that passes all on and then writes does to a whole payload.
abbrev pub all_then : PacketHandler → PacketHandler
all_then m = passthrough_all >>= λ remaining. m

abbrev passed : List ℕ → User → PacketWrapper User
passed payload u = record (wrap payload (some u)) {
  reader = record { bytes = payload; position = length payload };
  writer = extended (wrap payload (some u)).writer payload;
}

all_read : (payload : List ℕ) (u : User) → Holds (passed payload u).reader []
all_read payload u = record {
  within = omega arith;
  left = length-eq_zero _ (omega (arith, length-drop (length payload) payload));
}

pub all_then-Forwards :
    (m : PacketHandler) (payload extra : List ℕ) (u : User)
    → Rewrites m [] extra tt
    → Forwards (all_then m (wrap payload (some u))) (payload ++ extra) u
unfolding passthrough_all read_remaining write_bytes
all_then-Forwards m payload extra u r = rw run (record {
  returns = refl;
  passes = refl;
  output =
      to_bytes-Holds (moved (passed payload u) [] extra) []
        (Holds-advance (passed payload u).reader [] [] (all_read payload u))
      ∙ append-nil (payload ++ extra);
  user = refl;
})
  where
    run : all_then m (wrap payload (some u)) ≡ (ok tt, moved (passed payload u) [] extra)
    run = r.at (passed payload u) [] (all_read payload u)

zero_int : Codes int_le (pos 0) (0 ∷ 0 ∷ 0 ∷ 0 ∷ [])
unfolding to_le
zero_int = Codes-int_le (pos 0) 0 refl

no_number : Codes (optional_type int_le) none (0 ∷ [])
no_number = Codes-none int_le

-- ShowScreen: every payload gets a zero form and no instance behind it, and those are taken off again
-- behind the name of the screen.
pub show_screen_round :
    (payload : List ℕ) (screen : Field string) (u : User)
    → Forwards
        (Up.rewrite_show_screen (wrap payload (some u)))
        (payload ++ (0 ∷ 0 ∷ 0 ∷ 0 ∷ 0 ∷ []))
        u
      × Forwards
          (Down.rewrite_show_screen (wrap (screen.bytes ++ (0 ∷ 0 ∷ 0 ∷ 0 ∷ 0 ∷ [])) (some u)))
          screen.bytes
          u
unfolding Up.rewrite_show_screen Down.rewrite_show_screen
show_screen_round payload screen u = (upward, downward)
  where
    upward :
        Forwards
          (Up.rewrite_show_screen (wrap payload (some u)))
          (payload ++ (0 ∷ 0 ∷ 0 ∷ 0 ∷ 0 ∷ []))
          u
    upward = all_then-Forwards _ payload _ u (
        Rewrites-bind (write int_le (pos 0)) _ (Rewrites-write int_le (pos 0) _ zero_int)
          (Rewrites-write (optional_type int_le) none _ no_number))

    downward :
        Forwards
          (Down.rewrite_show_screen (wrap (screen.bytes ++ (0 ∷ 0 ∷ 0 ∷ 0 ∷ 0 ∷ [])) (some u)))
          screen.bytes
          u
    downward =
        rw
          (
            append-nil (screen.bytes ++ (0 ∷ 0 ∷ 0 ∷ 0 ∷ 0 ∷ [])),
            append-nil screen.bytes,
            append-nil screen.bytes,
          )
          at
          (Rewrites-Forwards Down.rewrite_show_screen [] u (
            Rewrites-bind (passthrough string) _
              (Rewrites-passthrough string screen.value screen.bytes screen.coded)
            ▸ Rewrites-bind (read int_le) _ (Rewrites-read int_le (pos 0) _ zero_int)
            ▸ Rewrites-bind (read (optional_type int_le)) _
                (Rewrites-read (optional_type int_le) none _ no_number) (Rewrites-pure tt)))

-- CloseScreen: every payload gets the flag of no form behind it, and of the empty payload it is taken
-- off again.
pub close_screens_round :
    (payload : List ℕ) (u : User)
    → Forwards (Up.rewrite_close_all_screens (wrap payload (some u))) (payload ++ (0 ∷ [])) u
      × Forwards (Down.rewrite_close_screen (wrap (0 ∷ []) (some u))) [] u
unfolding Up.rewrite_close_all_screens Down.rewrite_close_screen
close_screens_round payload u = (
  all_then-Forwards _ payload _ u (Rewrites-write (optional_type int_le) none _ no_number),
  Rewrites-Forwards Down.rewrite_close_screen [] u (
      Rewrites-bind (read (optional_type int_le)) _
        (Rewrites-read (optional_type int_le) none _ no_number) (Rewrites-pure tt)),
)

abbrev trimmed : List ℕ → User → PacketWrapper User
trimmed payload u = record (passed payload u) { writer = extended empty (without_last_two payload) }

sized : (payload : List ℕ) (a b : ℕ) → length (payload ++ (a ∷ b ∷ [])) - 2 ≡ length payload
sized payload a b = omega (arith, length-append payload (a ∷ b ∷ []))

zero_short : Codes ushort_le (pos 0) (0 ∷ 0 ∷ [])
unfolding to_le
zero_short = Codes-ushort_le 0 (omega arith)

take-append : (xs ys : List ℕ) → take (length xs) (xs ++ ys) ≡ xs
take-append [] ys = refl
take-append (x ∷ xs) ys = ap (λ zs. x ∷ zs) (take-append xs ys)

-- VoxelShapes: both handlers return, do not cancel and leave the connection. Every payload is
-- forwarded with two zero bytes behind it to v944, and every payload of at least two bytes without its
-- last two to v924.
pub voxel_shapes_round :
    (payload : List ℕ) (a b : ℕ) (u : User)
    → Forwards (Up.rewrite_voxel_shapes (wrap payload (some u))) (payload ++ (0 ∷ 0 ∷ [])) u
      × Forwards (Down.rewrite_voxel_shapes (wrap (payload ++ (a ∷ b ∷ [])) (some u))) payload u
unfolding Up.rewrite_voxel_shapes Down.rewrite_voxel_shapes read write read_remaining write_bytes
voxel_shapes_round payload a b u =
    (all_then-Forwards _ payload _ u (Rewrites-write ushort_le (pos 0) _ zero_short), stripped)
  where
    kept : without_last_two (payload ++ (a ∷ b ∷ [])) ≡ payload
    kept = rw (sized payload a b) (take-append payload (a ∷ b ∷ []))

    stripped :
        Forwards (Down.rewrite_voxel_shapes (wrap (payload ++ (a ∷ b ∷ [])) (some u))) payload u
    stripped = record {
      returns = refl;
      passes = refl;
      output =
          to_bytes-Holds (trimmed (payload ++ (a ∷ b ∷ [])) u) []
            (all_read (payload ++ (a ∷ b ∷ [])) u)
          ∙ append-nil (without_last_two (payload ++ (a ∷ b ∷ [])))
          ∙ kept;
      user = refl;
    }

abbrev pub zero_vec : Field vec3
unfolding to_le
zero_vec = record {
  value = (0, 0, 0);
  bytes = to_le 4 0 ++ (to_le 4 0 ++ to_le 4 0);
  coded = Codes-vec3 0 0 0 (omega arith) (omega arith) (omega arith);
}

-- UpdateClientInputLocks: the position of the server does not arrive, and comes back as the origin.
pub update_client_input_locks_round :
    (locks : Field uvar_int) (server_pos : Field vec3)
    → Rounds Locks.rewrite_update_client_input_locks Unlocks.rewrite_update_client_input_locks
        (same locks ∷ dropped server_pos zero_vec ∷ [])
unfolding Locks.rewrite_update_client_input_locks Unlocks.rewrite_update_client_input_locks zero_vec
update_client_input_locks_round locks server_pos =
    Swaps-Rounds _ _ _ (Swaps-same locks _ _ ▸ Swaps-dropped-last server_pos zero_vec)
