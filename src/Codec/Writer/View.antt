-- ===== src/Codec/Writer/View.antt =====
-- What a write does to the buffer. `Writes m bs` says that `m` returns, and appends `bs`.
use endweave.Prelude.{ℕ, ◌≡◌, refl, ◌∙◌, List, [], ◌++◌, append_assoc, append-nil}
use endweave.Exec.{ok, pure, ◌>>◌}
use endweave.Codec.Writer.{PacketWriter, Write, write_bytes}

abbrev pub extended : PacketWriter → List ℕ → PacketWriter
extended w bs = record w { buf = w.buf ++ bs }

pub record Writes (m : Write) (bs : List ℕ) : Type 0 where
  pub at : (w : PacketWriter) → m w ≡ (ok tt, extended w bs)

pub Writes-write_bytes : (bs : List ℕ) → Writes (write_bytes bs) bs
unfolding write_bytes
Writes-write_bytes bs = record { at = λ w. refl }

pub Writes-pure : Writes (pure tt) []
Writes-pure = record { at = λ w. rw (append-nil w.buf) }

pub Writes-then :
    (m n : Write) {bs cs : List ℕ} → Writes m bs → Writes n cs → Writes (m >> n) (bs ++ cs)
Writes-then m n {bs} {cs} wm wn = record {
  at = λ w. rw (wm.at w) (wn.at (extended w bs) ∙ rw (append_assoc w.buf bs cs));
}

-- The last write of a chain of fields.
pub Writes-end : {m : Write} {bs : List ℕ} → Writes m bs → Writes m (bs ++ [])
Writes-end {m} {bs} w = rw (append-nil bs) w
