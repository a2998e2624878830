-- ===== src/Codec/Utf8.antt =====
-- `str.encode("utf-8")` and `bytes.decode("utf-8")` of Python, which codec/reader.py and
-- codec/writer.py call. A `str` is the list of its code points, at most 0x10ffff each.
pub mod RoundTrip
use mathlib.Core.Option
use endweave.Prelude.{
  ℕ, ◌+◌, ◌-◌, ◌*◌, ◌/◌, ◌%◌, Bool, ◌&&◌, ◌||◌, Option, none, some, List, [], ◌∷◌, ◌++◌, leb, ltb,
  ◌==◌, if◌then◌else◌,
}

-- Surrogates are code points that have no encoding.
unfoldable pub is_scalar : ℕ → Bool
is_scalar c = ltb c 0xd800 || (leb 0xe000 c && leb c 0x10ffff)

unfoldable pub encode_char : ℕ → List ℕ
encode_char c =
    if ltb c 0x80
    then c ∷ []
    else if ltb c 0x800
    then (0xc0 + c / 64) ∷ (0x80 + c % 64) ∷ []
    else if ltb c 0x10000
    then (0xe0 + c / 4096) ∷ (0x80 + c / 64 % 64) ∷ (0x80 + c % 64) ∷ []
    else (0xf0 + c / 262144) ∷ (0x80 + c / 4096 % 64) ∷ (0x80 + c / 64 % 64) ∷ (0x80 + c % 64) ∷ []

-- `none` is a UnicodeEncodeError.
unfoldable pub encode : List ℕ → Option (List ℕ)
unfolding is_scalar encode_char
encode [] = some []
encode (c ∷ cs) =
    let rest = Option.map (λ bs. encode_char c ++ bs) (encode cs) in
    if is_scalar c then rest else none

-- Inside a character: the continuation bytes to come after the next one, the digits read, and the
-- least code point that needs this many bytes.
pub data Mode : Type 0 where
  start : Mode
  inside : ℕ → ℕ → ℕ → Mode

pub data Step : Type 0 where
  bad : Step
  emit : ℕ → Step
  next : Mode → Step

unfoldable pub continued : ℕ → ℕ → ℕ → Step
unfolding is_scalar
continued more c least =
    if more == 0
    then (if leb least c && is_scalar c then emit c else bad)
    else next (inside (more - 1) c least)

unfoldable pub step : Mode → ℕ → Step
unfolding continued
step start b =
    if ltb b 0x80
    then emit b
    else if leb 0xc0 b && ltb b 0xe0
    then next (inside 0 (b % 32) 0x80)
    else if leb 0xe0 b && ltb b 0xf0
    then next (inside 1 (b % 16) 0x800)
    else if leb 0xf0 b && ltb b 0xf8
    then next (inside 2 (b % 8) 0x10000)
    else bad
step (inside more c least) b =
    if leb 0x80 b && ltb b 0xc0 then continued more (c * 64 + b % 64) least else bad

-- `none` is a UnicodeDecodeError.
unfoldable pub decode_from : Mode → List ℕ → Option (List ℕ)
unfolding step continued
decode_from start [] = some []
decode_from (inside more c least) [] = none
decode_from mode (b ∷ bs) = elim (step mode b) [
  | bad ↦ none
  | emit c ↦ Option.map (λ cs. c ∷ cs) (decode_from start bs)
  | next mode' ↦ decode_from mode' bs
]

unfoldable pub decode : List ℕ → Option (List ℕ)
decode bs = decode_from start bs
