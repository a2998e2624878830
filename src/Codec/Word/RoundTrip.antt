-- ===== src/Codec/Word/RoundTrip.antt =====
-- Packing and unpacking of integers.
use native.Mathlib.Nat.{pow-suc}
use endweave.Prelude.{ℕ, zero, suc, ◌/◌, ◌^◌, ◌<◌, ◌≡◌, refl, some, arith, length, ℤ, pos}
use endweave.Codec.Word.{to_le, of_le, unsigned_word, signed_word, of_signed_word}

pub length-to_le : (n v : ℕ) → length (to_le n v) ≡ n
unfolding to_le
length-to_le zero v = refl
length-to_le (suc n) v = omega (arith, length-to_le n (v / 256))

pub of_le-to_le : (n v : ℕ) → v < 256 ^ n → of_le (to_le n v) ≡ v
unfolding to_le of_le
of_le-to_le zero v h = omega arith
of_le-to_le (suc n) v h = omega (arith, of_le-to_le n (v / 256) (omega (arith, pow-suc 256 n)))

pub unsigned_word-lt : (m : ℕ) (v : ℤ) (w : ℕ) → unsigned_word m v ≡ some w → w < m
unsigned_word-lt m v w h = ground arith

pub signed_word-lt : (m : ℕ) (v : ℤ) (w : ℕ) → signed_word m v ≡ some w → w < m
signed_word-lt m v w h = ground arith

pub of_unsigned_word : (m : ℕ) (v : ℤ) (w : ℕ) → unsigned_word m v ≡ some w → pos w ≡ v
of_unsigned_word m v w h = ground arith

pub of_signed_word-signed_word :
    (m : ℕ) (v : ℤ) (w : ℕ) → signed_word m v ≡ some w → of_signed_word m w ≡ v
of_signed_word-signed_word m v w h = ground arith
