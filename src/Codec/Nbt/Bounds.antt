-- ===== src/Codec/Nbt/Bounds.antt =====
-- codec/types/nbt.py: reading from any payload.
use endweave.Prelude.{
  ℕ, zero, suc, ◌+◌, ◌<◌, ◌≡◌, ◌≢◌, refl, ap, Bool, none, some, ◌==◌, length, get_elem?, pos,
  pos_part, ℤ, arith, if◌then◌else◌, Bool-cases, Option-cases, inl, inr,
}
use endweave.Exec.{
  Result, ok, raised, diverges, value_error, index_error, pure, and_then, ◌>>=◌, repeat,
}
use endweave.Codec.Reader.{
  PacketReader, Read, advance, read_byte, read_short_le, read_varint, read_varint64, read_float_le,
  read_bytes, read_uvarint, decoded,
}
use endweave.Codec.Reader.Bounds.Fixed.{Safe-read_short_le, Safe-read_float_le}
use endweave.Codec.Reader.Bounds.{
  IsAfter, Safe, IsAfter-refl, IsAfter-trans, Safe-pure, Safe-raise, Safe-if, Safe-bind,
  Safe-repeat, get_elem?-lt, Safe-read_byte, Safe-read_varint, Safe-read_varint64, Safe-read_bytes,
  Safe-read_uvarint, Safe-decoded,
}
use endweave.Codec.Word.{of_le}
use endweave.Codec.Nbt.{
  Tag, Entries, no_entries, set_entry, Child, as_tag, read_double, read_byte_array, read_nbt_string,
  entries_loop, read_entries, read_list, read_array, read_value, read_nbt, max_depth,
}

Safe-nbt_string : Safe read_nbt_string
unfolding read_nbt_string
Safe-nbt_string =
    Safe-bind read_uvarint _ Safe-read_uvarint
      (λ n. Safe-bind (read_bytes (pos n)) decoded (Safe-read_bytes (pos n)) Safe-decoded)

-- `Safe` at one state of the reader.
record SafeAt {A : Type 0} (m : Read A) (r : PacketReader) : Type 0 where
  pub after : IsAfter r (m r).1
  pub ends : (m r).0 ≢ raised diverges

at_state : {A : Type 0} (m : Read A) (r : PacketReader) → Safe m → SafeAt m r
at_state m r s = record { after = s.after r; ends = s.ends r }

module _ {A B : Type 0} where
  SafeAt-and_then :
      (x : Result A) (f : A → Read B) (r r' : PacketReader)
      → IsAfter r r'
      → x ≢ raised diverges
      → ((a : A) → SafeAt (f a) r')
      → IsAfter r (and_then x f r').1 × ((and_then x f r').0 ≢ raised diverges)
  SafeAt-and_then (ok a) f r r' after ne sf = (IsAfter-trans after (sf a).after, (sf a).ends)
  SafeAt-and_then (raised e) f r r' after ne sf = (after, λ eq. ne (cc))

  SafeAt-bind :
      (m : Read A) (f : A → Read B) (r : PacketReader)
      → SafeAt m r
      → ((a : A) → SafeAt (f a) (m r).1)
      → SafeAt (m >>= f) r
  SafeAt-bind m f r sm sf =
      let (after, ends) = SafeAt-and_then (m r).0 f r (m r).1 sm.after sm.ends sf in
      record { after = after; ends = ends }

  SafeAt-ok :
      (m : Read A) (f : A → Read B) (r r' : PacketReader) (a : A)
      → m r ≡ (ok a, r')
      → IsAfter r r'
      → SafeAt (f a) r'
      → SafeAt (m >>= f) r
  SafeAt-ok m f r r' a e after s = record {
    after = rw e (IsAfter-trans after s.after);
    ends = rw e s.ends;
  }

  SafeAt-raised :
      (m : Read A) (f : A → Read B) (r : PacketReader)
      → m r ≡ (raised index_error, r)
      → SafeAt (m >>= f) r
  SafeAt-raised m f r e = record { after = rw e (IsAfter-refl r); ends = rw e (λ eq. cc) }

Safe-both : {A : Type 0} (b : Bool) (m n : Read A) → Safe m → Safe n → Safe (if b then m else n)
Safe-both b m n sm sn = Safe-if b m n (λ e. sm) (λ e. sn)

Safe-tag : {A : Type 0} (m : Read A) (f : A → Tag) → Safe m → Safe (as_tag m f)
Safe-tag m f s = Safe-bind m (λ v. pure (f v)) s (λ v. Safe-pure (f v))

module _ (r : PacketReader) where
  read_byte-none : get_elem? r.bytes r.position ≡ none → read_byte r ≡ (raised index_error, r)
  unfolding read_byte
  read_byte-none e = rw (read_byte, e) refl

  read_byte-some :
      (b : ℕ) → get_elem? r.bytes r.position ≡ some b → read_byte r ≡ (ok b, advance 1 r)
  unfolding read_byte
  read_byte-some b e = rw (read_byte, e) refl

module _ (child : Child) (safe : (t : ℕ) → Safe (child t)) where
  -- What a round does behind the byte that it has read.
  abbrev round : (Entries → Read Entries) → Entries → ℕ → Read Entries
  round again found child_type =
      if child_type == 0
      then pure found
      else (read_nbt_string >>= λ name.
          child child_type >>= λ tag. again (set_entry name tag found))

  SafeAt-round :
      (again : Entries → Read Entries) (found : Entries) (child_type : ℕ) (r : PacketReader)
      → ((r' : PacketReader) (found' : Entries) → IsAfter r r' → SafeAt (again found') r')
      → SafeAt (round again found child_type) r
  SafeAt-round again found child_type r later = elim (Bool-cases (child_type == 0)) [
    | inl e ↦ rw e (at_state (pure found) r (Safe-pure found))
    | inr e ↦ rw e (
        SafeAt-bind read_nbt_string _ r (at_state read_nbt_string r Safe-nbt_string) (λ name.
          let r1 = (read_nbt_string r).1 in
          SafeAt-bind (child child_type) _ r1 (at_state (child child_type) r1 (safe child_type))
            (λ tag.
              later (child child_type r1).1 (set_entry name tag found)
                (IsAfter-trans (Safe-nbt_string.after r) ((safe child_type).after r1)))))
  ]

  -- A round takes a byte, so the fuel that is left stays above the bytes that are left.
  SafeAt-loop :
      (fuel : ℕ) (found : Entries) (r : PacketReader)
      → 0 < fuel
      → length r.bytes < fuel + r.position
      → SafeAt (entries_loop child fuel found) r
  unfolding entries_loop
  SafeAt-loop zero found r positive lt = absurd (omega arith)
  SafeAt-loop (suc fuel) found r positive lt = elim (Option-cases (get_elem? r.bytes r.position)) [
    | inl e ↦ SafeAt-raised read_byte (round (entries_loop child fuel) found) r (read_byte-none r e)
    | inr (b, e) ↦
        let within = get_elem?-lt r.bytes r.position e in
        SafeAt-ok read_byte (round (entries_loop child fuel) found) r (advance 1 r) b
          (read_byte-some r b e) (record { same = refl; within = λ h. omega (arith, within) })
          (SafeAt-round (entries_loop child fuel) found b (advance 1 r) (λ r' found' after.
            let moved = after.within (omega (arith, within)) in
            SafeAt-loop fuel found' r' (omega (arith, moved.0, moved.1, lt))
              (omega (arith, moved.0, lt, ap length after.same))))
  ]

  Safe-entries : Safe (read_entries child)
  unfolding read_entries
  Safe-entries = record {
    after =
        λ r. (SafeAt-loop (suc (length r.bytes)) no_entries r (omega arith) (omega arith)).after;
    ends = λ r. (SafeAt-loop (suc (length r.bytes)) no_entries r (omega arith) (omega arith)).ends;
  }

  Safe-list : Safe (read_list child)
  unfolding read_list
  Safe-list = Safe-bind read_byte _ Safe-read_byte (λ elem_type.
      Safe-bind read_varint _ Safe-read_varint (λ count.
        Safe-both _ _ _
          (Safe-tag (repeat (pos_part count) (child elem_type)) _
            (Safe-repeat (child elem_type) (safe elem_type) (pos_part count)))
          (Safe-pure _)))

Safe-array : (element : Read ℤ) → Safe element → Safe (read_array element)
unfolding read_array
Safe-array element s =
    Safe-bind read_varint _ Safe-read_varint (λ count. Safe-repeat element s (pos_part count))

Safe-double : Safe read_double
Safe-double =
    Safe-bind (read_bytes (pos 8)) _ (Safe-read_bytes (pos 8)) (λ bs. Safe-pure (of_le bs))

Safe-byte_array : Safe read_byte_array
Safe-byte_array = Safe-bind read_varint read_bytes Safe-read_varint Safe-read_bytes

Safe-value : (levels tag_type : ℕ) → Safe (read_value levels tag_type)
unfolding read_value
Safe-value zero tag_type = Safe-raise value_error (λ e. cc)
Safe-value (suc levels) tag_type =
    let child : Child = read_value levels in
    Safe-both _ _ _ (Safe-tag read_byte _ Safe-read_byte) (
      Safe-both _ _ _ (Safe-tag read_short_le _ Safe-read_short_le) (
        Safe-both _ _ _ (Safe-tag read_varint _ Safe-read_varint) (
          Safe-both _ _ _ (Safe-tag read_varint64 _ Safe-read_varint64) (
            Safe-both _ _ _ (Safe-tag read_float_le _ Safe-read_float_le) (
              Safe-both _ _ _ (Safe-tag read_double _ Safe-double) (
                Safe-both _ _ _ (Safe-tag read_byte_array _ Safe-byte_array) (
                  Safe-both _ _ _ (Safe-tag read_nbt_string _ Safe-nbt_string) (
                    Safe-both _ _ _ (Safe-list child (Safe-value levels)) (
                      Safe-both _ _ _
                        (Safe-tag (read_entries child) _ (Safe-entries child (Safe-value levels)))
                        (Safe-both _ _ _
                          (Safe-tag (read_array read_varint) _
                            (Safe-array read_varint Safe-read_varint))
                          (Safe-both _ _ _
                            (Safe-tag (read_array read_varint64) _
                              (Safe-array read_varint64 Safe-read_varint64))
                            (Safe-raise value_error (λ e. cc)))))))))))))

-- Reading a root tag from any payload, with a root name or without, moves forward within the payload
-- and ends, returning or raising: neither the nesting nor the loops of compounds run on.
pub Safe-read_nbt : (read_name : Bool) → Safe (read_nbt read_name)
unfolding read_nbt
Safe-read_nbt read_name = Safe-bind read_byte _ Safe-read_byte (λ root_type.
    Safe-both _ _ _ (Safe-pure none) (
      Safe-both _ _ _ (Safe-raise value_error (λ e. cc)) (
        Safe-bind (if read_name then read_nbt_string >>= (λ name. pure tt) else pure tt) _
          (Safe-both read_name _ _
            (Safe-bind read_nbt_string _ Safe-nbt_string (λ name. Safe-pure tt)) (Safe-pure tt))
          (λ done.
            Safe-bind (read_entries (read_value max_depth)) _
              (Safe-entries (read_value max_depth) (Safe-value max_depth))
              (λ entries. Safe-pure (some entries))))))
