-- ===== src/Codec/Utf8/RoundTrip.antt =====
-- Texts and their encodings, for codec/reader.py and codec/writer.py.
use mathlib.Core.Option
use endweave.Prelude.{ℕ, ◌≡◌, true, some, List, [], ◌∷◌, ◌++◌, arith, Option-cases, inl, inr}
use endweave.Codec.Utf8.{is_scalar, encode_char, encode, start, decode_from, decode}

-- The bytes of one character, whatever follows them.
decode_from-encode_char :
    (c : ℕ) (bs : List ℕ)
    → is_scalar c ≡ true
    → decode_from start (encode_char c ++ bs) ≡ Option.map (λ cs. c ∷ cs) (decode_from start bs)
unfolding decode_from encode
decode_from-encode_char c bs h = ground arith

decode-encode_cons :
    (c : ℕ) (cs bs : List ℕ)
    → is_scalar c ≡ true
    → decode_from start bs ≡ some cs
    → decode_from start (encode_char c ++ bs) ≡ some (c ∷ cs)
decode-encode_cons c cs bs h e = rw (decode_from-encode_char c bs h) (rw e)

-- What a text that can be encoded is made of.
encode-cons :
    (c : ℕ) (cs bs : List ℕ)
    → encode (c ∷ cs) ≡ some bs
    → (is_scalar c ≡ true) × (bs' : List ℕ) × (encode cs ≡ some bs') × (bs ≡ encode_char c ++ bs')
unfolding encode
encode-cons c cs bs h = elim (Option-cases (encode cs)) [
  | inl e ↦ absurd (ground arith)
  | inr (bs', e) ↦ (ground arith, bs', e, ground arith)
]

-- Decoding gives back every text that could be encoded.
pub decode-encode : (cs bs : List ℕ) → encode cs ≡ some bs → decode bs ≡ some cs
unfolding decode
decode-encode [] bs h = unfold decode_from encode in cc
decode-encode (c ∷ cs) bs h =
    let (scalar, bs', e, eq) = encode-cons c cs bs h in
    rw (eq, decode_from-encode_char c bs' scalar) (rw (decode-encode cs bs' e))
