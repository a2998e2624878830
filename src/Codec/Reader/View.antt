-- ===== src/Codec/Reader/View.antt =====
-- What a read does to the bytes that are still unread. `Reads m bs v` says that `m` takes the bytes
-- `bs` from the front of them, whatever follows, and returns `v`.
use endweave.Prelude.{
  ℕ, ◌+◌, ◌≤◌, ◌≡◌, refl, ap, ◌∙◌, sym, List, [], ◌∷◌, ◌++◌, arith, length, length-append,
  length-drop, drop-drop, drop-append, take-append, get_elem?-drop, take, drop, append_assoc, pos,
}
use endweave.Exec.{ok, pure, ◌>>=◌}
use endweave.Codec.Reader.{PacketReader, Read, advance, read_byte, read_bytes, unpack_from}

abbrev pub unread : PacketReader → List ℕ
unread r = drop r.position r.bytes

pub record Holds (r : PacketReader) (bs : List ℕ) : Type 0 where
  pub within : r.position ≤ length r.bytes
  pub left : unread r ≡ bs

pub record Reads {A : Type 0} (m : Read A) (bs : List ℕ) (v : A) : Type 0 where
  pub at :
      (r : PacketReader) (rest : List ℕ)
      → Holds r (bs ++ rest)
      → m r ≡ (ok v, advance (length bs) r)

-- The unread bytes are within the payload.
pub Holds-length :
    (r : PacketReader) (bs rest : List ℕ)
    → Holds r (bs ++ rest)
    → r.position + length bs + length rest ≡ length r.bytes
Holds-length r bs rest h =
    omega (arith, h.within, length-drop r.position r.bytes, ap length h.left, length-append bs rest)

pub Holds-advance :
    (r : PacketReader) (bs rest : List ℕ)
    → Holds r (bs ++ rest)
    → Holds (advance (length bs) r) rest
Holds-advance r bs rest h = record {
  within = omega (arith, Holds-length r bs rest h);
  left =
      sym (drop-drop (length bs) r.position (r.position + length bs) r.bytes refl)
      ∙ ap (drop (length bs)) h.left
      ∙ drop-append bs rest;
}

pub Holds-append :
    {r : PacketReader} (bs cs rest : List ℕ)
    → Holds r ((bs ++ cs) ++ rest)
    → Holds r (bs ++ (cs ++ rest))
Holds-append bs cs rest h = rw append_assoc at h

-- The bytes that were taken are the front of what was unread.
taken :
    (r : PacketReader) (bs rest : List ℕ) → Holds r (bs ++ rest) → take (length bs) (unread r) ≡ bs
taken r bs rest h = rw h.left (take-append bs rest)

advance-zero : (r : PacketReader) → advance 0 r ≡ r
advance-zero r = ground arith

advance-advance :
    (bs cs : List ℕ) (r : PacketReader)
    → advance (length cs) (advance (length bs) r) ≡ advance (length (bs ++ cs)) r
advance-advance bs cs r = ground (arith, length-append bs cs)

module _ {A : Type 0} where
  pub Reads-pure : (v : A) → Reads (pure v) [] v
  Reads-pure v = record { at = λ r rest h. rw (advance-zero r) }

module _ {A B : Type 0} where
  pub Reads-bind :
      (m : Read A) (f : A → Read B) {bs cs : List ℕ} {v : A} {w : B}
      → Reads m bs v
      → Reads (f v) cs w
      → Reads (m >>= f) (bs ++ cs) w
  Reads-bind m f {bs} {cs} rm rf = record {
    at = λ r rest h.
        let h' = Holds-append bs cs rest h in
        rw (rm.at r (cs ++ rest) h') (
          rf.at (advance (length bs) r) rest (Holds-advance r bs (cs ++ rest) h')
          ∙ rw (advance-advance bs cs r));
  }

  -- The last step of a read computes the value from what was read.
  pub Reads-map :
      (m : Read A) (f : A → B) {bs : List ℕ} {v : A} {w : B}
      → Reads m bs v
      → f v ≡ w
      → Reads (m >>= λ x. pure (f x)) bs w
  Reads-map m f {bs} rm e = record { at = λ r rest h. rw (rm.at r rest h) (rw e) }

pub Reads-read_byte : (b : ℕ) → Reads read_byte (b ∷ []) b
unfolding read_byte
Reads-read_byte b = record {
  at = λ r rest h. rw (get_elem?-drop r.position r.bytes h.left, read_byte);
}

pub Reads-unpack_from : (n : ℕ) (bs : List ℕ) → length bs ≡ n → Reads (unpack_from n) bs bs
unfolding unpack_from
Reads-unpack_from n bs e = record {
  at = λ r rest h. ground (arith, Holds-length r bs rest h, taken r bs rest h);
}

pub Reads-read_bytes : (n : ℕ) (bs : List ℕ) → length bs ≡ n → Reads (read_bytes (pos n)) bs bs
unfolding read_bytes
Reads-read_bytes n bs e = record {
  at = λ r rest h. ground (arith, Holds-length r bs rest h, taken r bs rest h);
}
