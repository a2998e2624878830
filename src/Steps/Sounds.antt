-- ===== src/Steps/Sounds.antt =====
-- protocol/v975_to_v1001/handlers/level_sound_event.py: sounds, to the client and back.
use endweave.Prelude.{
  ℕ, List, [], ◌∷◌, ◌++◌, Option, none, some, Dict, lookup, insert, int_eq, list_eq, Bool, true,
  false, ◌&&◌, ◌≡◌, refl, ℤ, eqb_ℤ, eqb_ℤ_iff, arith, append-nil, Bool-cases, inl, inr,
}
use endweave.Exec.{pure, ◌>>=◌, ◌>>◌}
use endweave.Codec.FieldType.{string, uvar_int}
use endweave.Codec.FieldType.Codes.{Field}
use endweave.Codec.Wrapper.{wrap, read, write, passthrough_all}
use endweave.Codec.Wrapper.Fields.{Rewrites, Rewrites-read, Rewrites-write}
use endweave.Codec.Wrapper.Whole.{Finishes, Finishes-bind, Finishes-last}
use endweave.Connection.{User}
use endweave.Protocol.{PacketHandler, serverbound, clientbound}
use endweave.Protocol.Base.Detect.{Forwards}
use endweave.Rewriter.Sound.Rewritten.{Finishes-Forwards}
use endweave.Steps.V975ToV1001.SoundNames.{sound_event_names, sound_event_ids, inverse}
use endweave.Steps.V975ToV1001.LevelSound.{name_of, id_of, rewrite_level_sound_event}

abbrev is_number : ℤ → Option ℤ → Bool
is_number n none = false
is_number n (some m) = eqb_ℤ m n

unfoldable all_back : Dict (List ℕ) ℤ → Dict ℤ (List ℕ) → Bool
all_back ids [] = true
all_back ids (e ∷ es) = is_number e.0 (lookup e.1 ids) && all_back ids es

names_back : all_back sound_event_ids sound_event_names ≡ true
unfolding lookup inverse insert all_back sound_event_ids sound_event_names
names_back = refl

is_number-some : (n : ℤ) (o : Option ℤ) → is_number n o ≡ true → o ≡ some n
is_number-some n none h = absurd (ground arith)
is_number-some n (some m) h = ground (arith, eqb_ℤ_iff m n)

and-left : (a b : Bool) → (a && b) ≡ true → a ≡ true
and-left a b h = ground arith

and-right : (a b : Bool) → (a && b) ≡ true → b ≡ true
and-right a b h = ground arith

some_inj : (x y : List ℕ) → some x ≡ some y → x ≡ y
some_inj x y h = ground (arith, h)

back_of :
    (ids : Dict (List ℕ) ℤ) (names : Dict ℤ (List ℕ)) (n : ℤ) (name : List ℕ)
    → all_back ids names ≡ true
    → lookup n names ≡ some name
    → lookup name ids ≡ some n
unfolding all_back lookup
back_of ids [] n name all found = absurd (ground arith)
back_of ids ((m, text) ∷ es) n name all found = elim (Bool-cases (eqb_ℤ m n)) [
  | inl here ↦ cc (
    (eqb_ℤ_iff m n).0 here,
    is_number-some m (lookup text ids)
        (and-left (is_number m (lookup text ids)) (all_back ids es) all),
    some_inj text name (rw here at found),
  )
  | inr later ↦
      back_of ids es n name (and-right (is_number m (lookup text ids)) (all_back ids es) all)
        (rw later at found)
]

abbrev named : ℤ → PacketHandler
named sound_id = do write string (name_of sound_id); _ ← passthrough_all; pure tt

abbrev numbered : List ℕ → PacketHandler
numbered sound_name = do write uvar_int (id_of sound_name); _ ← passthrough_all; pure tt

-- LevelSoundEvent of a sound that the table names, its number and its name coded: the handler
-- returns, does not cancel, leaves the connection, and forwards the name to the client and, for that
-- name, the number to the server. What follows stays.
pub level_sound_event_round :
    (sound : Field uvar_int) (name : Field string) (rest : List ℕ) (u : User)
    → lookup sound.value sound_event_names ≡ some name.value
    → Forwards
        (rewrite_level_sound_event clientbound (wrap (sound.bytes ++ rest) (some u)))
        (name.bytes ++ rest)
        u
      × Forwards
          (rewrite_level_sound_event serverbound (wrap (name.bytes ++ rest) (some u)))
          (sound.bytes ++ rest)
          u
unfolding rewrite_level_sound_event name_of id_of
level_sound_event_round sound name rest u found = (
  Finishes-Forwards (rewrite_level_sound_event clientbound) rest u upward,
  Finishes-Forwards (rewrite_level_sound_event serverbound) rest u downward,
)
  where
    write_name : Rewrites {U = User} (write string (name_of sound.value)) [] name.bytes tt
    write_name = rw found (Rewrites-write string name.value name.bytes name.coded)

    upward : Finishes (rewrite_level_sound_event clientbound) sound.bytes name.bytes
    upward = rw (append-nil sound.bytes) at (
        Finishes-bind (read uvar_int) named
          (Rewrites-read uvar_int sound.value sound.bytes sound.coded)
          (Finishes-last (write string (name_of sound.value)) write_name))

    write_number : Rewrites {U = User} (write uvar_int (id_of name.value)) [] sound.bytes tt
    write_number =
        rw (back_of sound_event_ids sound_event_names sound.value name.value names_back found)
          (Rewrites-write uvar_int sound.value sound.bytes sound.coded)

    downward : Finishes (rewrite_level_sound_event serverbound) name.bytes sound.bytes
    downward = rw (append-nil name.bytes) at (
        Finishes-bind (read string) numbered (Rewrites-read string name.value name.bytes name.coded)
          (Finishes-last (write uvar_int (id_of name.value)) write_number))
