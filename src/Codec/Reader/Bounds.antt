-- ===== src/Codec/Reader/Bounds.antt =====
-- codec/reader.py on any payload: where the position is after a method, and how a method ends.
pub mod Fixed
use endweave.Prelude.{
  ℕ, zero, suc, ◌+◌, ◌*◌, ◌%◌, ◌/◌, ◌≤◌, ◌<◌, ◌≡◌, ◌≢◌, refl, ap, ◌∙◌, Bool, Bool-cases,
  Option-cases, inl, inr, true, false, ◌==◌, some, List, [], ◌∷◌, arith, length, leb, ltb, ℤ, pos,
  if◌then◌else◌, get_elem?,
}
use endweave.Exec.{
  Exception, Result, ok, raised, diverges, value_error, pure, raise, ◌>>=◌, and_then, repeat,
}
use endweave.Codec.Reader.{
  PacketReader, Read, skip, read_byte, read_signed_byte, read_bool, read_bytes, read_remaining,
  unpack_from, read_short_le, read_ushort_le, read_int_le, read_int_be, read_uint_le, read_int64_le,
  read_uint64_le, read_float_le, read_double_le, uvarint_loop, uvarint, read_uvarint,
  read_uvarint64, read_varint, read_varint64, read_string, decoded, max_string_bytes,
}

-- `r'` is `r` after some bytes.
pub record IsAfter (r r' : PacketReader) : Type 0 where
  pub same : r'.bytes ≡ r.bytes
  pub within :
      r.position ≤ length r.bytes → (r.position ≤ r'.position) × (r'.position ≤ length r.bytes)

pub record Safe {A : Type 0} (m : Read A) : Type 0 where
  pub after : (r : PacketReader) → IsAfter r (m r).1
  pub ends : (r : PacketReader) → (m r).0 ≢ raised diverges

pub IsAfter-refl : (r : PacketReader) → IsAfter r r
IsAfter-refl r = record { same = refl; within = λ h. omega arith }

pub IsAfter-trans : {r s t : PacketReader} → IsAfter r s → IsAfter s t → IsAfter r t
IsAfter-trans {r} {s} {t} p q = record { same = q.same ∙ p.same; within = λ h. moved (p.within h) }
  where
    moved :
        (r.position ≤ s.position) × (s.position ≤ length r.bytes)
        → (r.position ≤ t.position) × (t.position ≤ length r.bytes)
    moved (le, lt) = omega (arith, q.within (rw p.same lt), ap length p.same)

module _ {A : Type 0} where
  pub Safe-pure : (a : A) → Safe (pure a)
  Safe-pure a = record { after = IsAfter-refl; ends = λ r e. cc }

  pub Safe-raise : (e : Exception) → e ≢ diverges → Safe (raise {A = A} e)
  Safe-raise e h = record { after = IsAfter-refl; ends = λ r eq. h (cc) }

  pub Safe-if :
      (b : Bool) (m n : Read A)
      → (b ≡ true → Safe m)
      → (b ≡ false → Safe n)
      → Safe (if b then m else n)
  Safe-if true m n sm sn = sm refl
  Safe-if false m n sm sn = sn refl

module _ {A B : Type 0} where
  after-and_then :
      (x : Result A) (f : A → Read B) (r : PacketReader)
      → ((a : A) → Safe (f a))
      → IsAfter r (and_then x f r).1
  after-and_then (ok a) f r sf = (sf a).after r
  after-and_then (raised e) f r sf = IsAfter-refl r

  ends-and_then :
      (x : Result A) (f : A → Read B) (r : PacketReader)
      → x ≢ raised diverges
      → ((a : A) → Safe (f a))
      → (and_then x f r).0 ≢ raised diverges
  ends-and_then (ok a) f r h sf = (sf a).ends r
  ends-and_then (raised e) f r h sf = λ eq. h (cc)

  pub Safe-bind : (m : Read A) (f : A → Read B) → Safe m → ((a : A) → Safe (f a)) → Safe (m >>= f)
  Safe-bind m f sm sf = record {
    after = λ r. IsAfter-trans (sm.after r) (after-and_then (m r).0 f (m r).1 sf);
    ends = λ r. ends-and_then (m r).0 f (m r).1 (sm.ends r) sf;
  }

pub Safe-repeat : {A : Type 0} (m : Read A) → Safe m → (n : ℕ) → Safe (repeat n m)
unfolding repeat
Safe-repeat m sm zero = Safe-pure []
Safe-repeat m sm (suc n) =
    Safe-bind m _ sm (λ x. Safe-bind (repeat n m) _ (Safe-repeat m sm n) (λ xs. Safe-pure (x ∷ xs)))

pub ruleset safe_rules = (Safe-pure, Safe-bind)

pub get_elem?-lt : (xs : List ℕ) (i : ℕ) {x : ℕ} → get_elem? xs i ≡ some x → i < length xs
get_elem?-lt [] i e = cc
get_elem?-lt (x ∷ xs) zero e = omega arith
get_elem?-lt (x ∷ xs) (suc i) e = omega (arith, get_elem?-lt xs i e)

pub Safe-skip : (n : ℤ) → Safe (skip n)
unfolding skip
Safe-skip n = record {
  after = λ r. record { same = ground arith; within = ground arith };
  ends = λ r e. ground arith;
}

pub Safe-read_byte : Safe read_byte
unfolding read_byte
Safe-read_byte = record {
  after = λ r. record {
    same = ground arith;
    within = λ h. elim (Option-cases (get_elem? r.bytes r.position)) [
      | inl e ↦ ground arith
      | inr (x, e) ↦ ground (arith, get_elem?-lt r.bytes r.position e)
    ];
  };
  ends = λ r e. ground arith;
}

pub Safe-read_bytes : (n : ℤ) → Safe (read_bytes n)
unfolding read_bytes
Safe-read_bytes n = record {
  after = λ r. record { same = ground arith; within = ground arith };
  ends = λ r e. ground arith;
}

pub Safe-unpack_from : (n : ℕ) → Safe (unpack_from n)
unfolding unpack_from
Safe-unpack_from n = record {
  after = λ r. record { same = ground arith; within = ground arith };
  ends = λ r e. ground arith;
}

pub Safe-decoded : (bs : List ℕ) → Safe (decoded bs)
Safe-decoded bs = record {
  after = λ r. record { same = ground arith; within = ground arith };
  ends = λ r e. ground arith;
}

pub Safe-read_signed_byte : Safe read_signed_byte
unfolding read_signed_byte
Safe-read_signed_byte = search (safe_rules, Safe-read_byte)

pub Safe-read_bool : Safe read_bool
unfolding read_bool
Safe-read_bool = search (safe_rules, Safe-read_byte)

-- A round is left only while the limit is not reached, and each takes 7 bits of it.
Safe-uvarint_loop :
    (fuel limit result shift : ℕ)
    → shift < limit
    → limit ≤ shift + 7 * fuel
    → Safe (uvarint_loop fuel limit result shift)
unfolding uvarint_loop
Safe-uvarint_loop zero limit result shift h k = absurd (omega arith)
Safe-uvarint_loop (suc fuel) limit result shift h k = Safe-bind read_byte _ Safe-read_byte (λ b.
    elim (Bool-cases (b / 128 % 2 == 0)) [
      | inl last ↦ rw last (Safe-pure _)
      | inr more ↦ elim (Bool-cases (leb limit (shift + 7))) [
        | inl long ↦ rw (more, long) (Safe-raise value_error (λ e. cc))
        | inr short ↦
            rw (more, short)
              (Safe-uvarint_loop fuel limit _ (shift + 7) (ground arith) (omega arith))
      ]
    ])

Safe-uvarint : (rounds limit : ℕ) → 7 < limit → limit ≤ 7 + 7 * rounds → Safe (uvarint rounds limit)
unfolding uvarint
Safe-uvarint rounds limit h k = Safe-bind read_byte _ Safe-read_byte (λ b.
    Safe-if (ltb b 128) (pure b) (uvarint_loop rounds limit (b % 128) 7) (λ _. Safe-pure b)
      (λ _. Safe-uvarint_loop rounds limit (b % 128) 7 h k))

pub Safe-read_uvarint : Safe read_uvarint
unfolding read_uvarint
Safe-read_uvarint = Safe-uvarint 4 35 (omega arith) (omega arith)

pub Safe-read_uvarint64 : Safe read_uvarint64
unfolding read_uvarint64
Safe-read_uvarint64 = Safe-uvarint 9 70 (omega arith) (omega arith)

pub Safe-read_varint : Safe read_varint
unfolding read_varint
Safe-read_varint = search (safe_rules, Safe-read_uvarint)

pub Safe-read_varint64 : Safe read_varint64
unfolding read_varint64
Safe-read_varint64 = search (safe_rules, Safe-read_uvarint64)

-- On any payload `read_string` moves forward within the payload and ends, returning or raising.
pub Safe-read_string : Safe read_string
unfolding read_string
Safe-read_string = Safe-bind read_uvarint _ Safe-read_uvarint (λ n.
    Safe-if (ltb max_string_bytes n) (raise value_error) (read_bytes (pos n) >>= decoded)
      (λ _. Safe-raise value_error (λ e. cc))
      (λ _. Safe-bind (read_bytes (pos n)) decoded (Safe-read_bytes (pos n)) Safe-decoded))

pub Safe-read_remaining : Safe read_remaining
unfolding read_remaining
Safe-read_remaining = record {
  after = λ r. record { same = refl; within = λ h. omega arith };
  ends = λ r e. cc;
}
