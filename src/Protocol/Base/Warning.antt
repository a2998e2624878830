-- ===== src/Protocol/Base/Warning.antt =====
-- protocol/base.py: the warning about a packet that could not be taken.
use mathlib.Core.Path.{subst}
use endweave.Prelude.{
  ℕ, ◌^◌, ◌<◌, ◌≤◌, ◌≡◌, refl, ap, ◌∙◌, sym, some, List, [], ◌++◌, append_assoc, append-nil, length,
  ℤ, true, false, arith, ltb,
}
use endweave.Exec.{Exec, Result, ok, raised, pure, value_error, ◌>>=◌}
use endweave.Codec.Utf8.{encode}
use endweave.Codec.Leb128.{groups}
use endweave.Codec.Zigzag.{place, IsInt}
use endweave.Codec.FieldType.{var_int, string}
use endweave.Codec.FieldType.Variable.{Codes-var_int, Codes-string}
use endweave.Codec.Reader.{advance, read_string, max_string_bytes}
use endweave.Codec.Reader.View.{Holds, Holds-advance, Holds-append}
use endweave.Codec.Reader.Varint.{Reads-read_uvarint}
use endweave.Codec.Wrapper
use endweave.Codec.Wrapper.{PacketWrapper, wrap, to_bytes, passthrough}
use endweave.Codec.Wrapper.Fields.{
  moved, moved-moved, to_bytes-Holds, Rewrites, Rewrites-bind, Rewrites-pure, Rewrites-passthrough,
}
use endweave.Connection.{User, warn_violation, warn_undecoded, log}
use endweave.Protocol.Base.{Violation, decode_violation, violation_message, log_packet_violation}
use endweave.Protocol.Base.Detect.{start_Holds, Forwards}

-- The three numbers in front of the text.
abbrev pub front_bytes : ℤ → ℤ → ℤ → List ℕ
front_bytes type severity packet_id =
    groups 4 (place type) ++ (groups 4 (place severity) ++ groups 4 (place packet_id))

module _ (u : User) (type severity packet_id : ℤ) (type-IsInt : IsInt (2 ^ 31) type)
    (severity-IsInt : IsInt (2 ^ 31) severity) (packet_id-IsInt : IsInt (2 ^ 31) packet_id) where
  abbrev front : List ℕ
  front = front_bytes type severity packet_id

  abbrev violation : List ℕ → Violation
  violation context = record {
    violation_type = type;
    severity = severity;
    offending_packet_id = packet_id;
    context = context;
  }

  module _ (w : PacketWrapper User) (rest : List ℕ) (h : Holds w.reader (front ++ rest)) where
    abbrev one : List ℕ
    one = groups 4 (place type)

    abbrev two : List ℕ
    two = groups 4 (place severity)

    abbrev three : List ℕ
    three = groups 4 (place packet_id)

    -- What is left of `decode_violation` behind the numbers.
    abbrev text : Exec (PacketWrapper User) Violation
    text = passthrough string >>= λ context. pure (violation context)

    pass :
        (v : ℤ)
        → IsInt (2 ^ 31) v
        → Rewrites {U = User} (passthrough var_int) (groups 4 (place v)) (groups 4 (place v)) v
    pass v k = Rewrites-passthrough var_int v (groups 4 (place v)) (Codes-var_int v k)

    after_front : decode_violation w ≡ text (moved w front front)
    unfolding decode_violation
    after_front =
        let h1 = Holds-append one (two ++ three) rest h in
        let w1 = moved w one one in
        let h2 = Holds-append two three rest (Holds-advance w.reader one _ h1) in
        let w2 = moved w1 two two in
        let h3 = Holds-advance w1.reader two _ h2 in
        rw ((pass type type-IsInt).at w _ h1) (
          rw ((pass severity severity-IsInt).at w1 _ h2) (
            rw ((pass packet_id packet_id-IsInt).at w2 rest h3) (
              ap text (
                moved-moved w1 two two three three
                ∙ moved-moved w one one (two ++ three) (two ++ three)))))

  -- The handler catches whatever `decode_violation` ends with.
  logged :
      (r : Result Violation × PacketWrapper User) (out : List ℕ)
      → r.1.cancelled ≡ false
      → to_bytes r.1 ≡ out
      → Forwards
          (Wrapper.set_user (log (violation_message r.0) u) r.1)
          out
          (log (violation_message r.0) u)
  unfolding Wrapper.set_user to_bytes
  logged r out k o = record { returns = refl; passes = k; output = o; user = refl }

  caught :
      (payload : List ℕ) (r : Result Violation × PacketWrapper User) (out : List ℕ)
      → decode_violation (wrap payload (some u)) ≡ r
      → r.1.cancelled ≡ false
      → to_bytes r.1 ≡ out
      → Forwards (log_packet_violation (wrap payload (some u))) out (log (violation_message r.0) u)
  unfolding log_packet_violation Wrapper.user
  caught payload r out e k o =
      subst
        (λ x.
          Forwards (Wrapper.set_user (log (violation_message x.0) u) x.1) out
            (log (violation_message r.0) u))
        (sym e) (logged r out k o)

  text-Rewrites :
      (context encoded : List ℕ)
      → encode context ≡ some encoded
      → length encoded ≤ max_string_bytes
      → let tail = groups 4 (length encoded) ++ encoded in
        Rewrites {U = User}
          (passthrough string >>= λ context. pure (violation context))
          (tail ++ [])
          (tail ++ [])
          (violation context)
  text-Rewrites context encoded e le =
      Rewrites-bind (passthrough string) _
        (Rewrites-passthrough string context _ (Codes-string context encoded e le))
        (Rewrites-pure (violation context))

  -- A warning whose four fields are in order: it is logged, and the payload passes as it is.
  pub log_packet_violation_lem :
      (context encoded rest : List ℕ)
      → encode context ≡ some encoded
      → length encoded ≤ max_string_bytes
      → let payload =
          front_bytes type severity packet_id ++ ((groups 4 (length encoded) ++ encoded) ++ rest) in
        Forwards
          (log_packet_violation (wrap payload (some u)))
          payload
          (log (warn_violation type severity packet_id context) u)
  log_packet_violation_lem context encoded rest e le =
      let tail = groups 4 (length encoded) ++ encoded in
      let w = wrap (front ++ (tail ++ rest)) (some u) in
      let h = start_Holds (front ++ (tail ++ rest)) (some u) in
      let w1 = moved w front front in
      let h1 = Holds-advance w.reader front (tail ++ rest) h in
      let whole = rw append-nil at (text-Rewrites context encoded e le) in
      caught (front ++ (tail ++ rest)) (ok (violation context), moved w1 tail tail) _
        (after_front w (tail ++ rest) h ∙ whole.at w1 rest h1) refl
        (to_bytes-Holds (moved w1 tail tail) rest (Holds-advance w1.reader tail rest h1)
          ∙ append_assoc front tail rest)

  -- A warning whose text is announced longer than the limit: that it could not be decoded is logged,
  -- and the payload passes without the bytes that announce the length, though all other bytes stay.
  pub log_packet_violation_oversized :
      (size : ℕ) (rest : List ℕ)
      → max_string_bytes < size
      → size < 2 ^ 35
      → let front = front_bytes type severity packet_id in
        Forwards
          (log_packet_violation (wrap (front ++ (groups 4 size ++ rest)) (some u)))
          (front ++ rest)
          (log warn_undecoded u)
  unfolding read_string passthrough
  log_packet_violation_oversized size rest lt small =
      let prefix = groups 4 size in
      let w = wrap (front ++ (prefix ++ rest)) (some u) in
      let h = start_Holds (front ++ (prefix ++ rest)) (some u) in
      let w1 = moved w front front in
      let h1 = Holds-advance w.reader front (prefix ++ rest) h in
      let w2 = record w1 { reader = advance (length prefix) w1.reader } in
      caught (front ++ (prefix ++ rest)) (raised value_error, w2) _
        (after_front w (prefix ++ rest) h ∙ refused w1 h1) refl
        (to_bytes-Holds w2 rest (Holds-advance w1.reader prefix rest h1))
    where
      long : ltb max_string_bytes size ≡ true
      long = ground arith

      refused :
          (w1 : PacketWrapper User)
          → Holds w1.reader (groups 4 size ++ rest)
          → (passthrough string >>= λ context. pure (violation context)) w1 ≡ (
            raised value_error,
            record w1 { reader = advance (length (groups 4 size)) w1.reader },
          )
      refused w1 h1 = rw ((Reads-read_uvarint size small).at w1.reader rest h1, long) refl
