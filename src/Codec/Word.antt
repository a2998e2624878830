-- ===== src/Codec/Word.antt =====
-- `struct.pack` and `struct.unpack` of Python for the integer formats h H i I q Q, which
-- codec/reader.py and codec/writer.py call. A format of n bytes holds numbers below 256 ** n.
pub mod RoundTrip
use endweave.Prelude.{
  ℕ, zero, suc, ◌+◌, ◌-◌, ◌*◌, ◌/◌, ◌%◌, ◌^◌, Option, none, some, List, [], ◌∷◌, ltb, leb, ℤ, pos,
  negsuc, if◌then◌else◌,
}

-- the lowest byte first
unfoldable pub to_le : ℕ → ℕ → List ℕ
to_le zero v = []
to_le (suc n) v = (v % 256) ∷ to_le n (v / 256)

unfoldable pub of_le : List ℕ → ℕ
of_le [] = 0
of_le (b ∷ bs) = b + 256 * of_le bs

-- The bit pattern of a number in range: two's complement for the signed formats. `none` is a
-- struct.error. `m` is 256 ** n.
abbrev pub unsigned_word : ℕ → ℤ → Option ℕ
unsigned_word m (pos v) = if ltb v m then some v else none
unsigned_word m (negsuc v) = none

abbrev pub signed_word : ℕ → ℤ → Option ℕ
signed_word m (pos v) = if ltb (v * 2) m then some v else none
signed_word m (negsuc v) = if leb ((v + 1) * 2) m then some (m - v - 1) else none

abbrev pub of_signed_word : ℕ → ℕ → ℤ
of_signed_word m w = if ltb (w * 2) m then pos w else negsuc (m - w - 1)
