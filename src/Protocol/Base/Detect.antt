-- ===== src/Protocol/Base/Detect.antt =====
-- protocol/base.py: the first two packets of a connection.
use endweave.Prelude.{ℕ, ◌^◌, ◌≡◌, refl, Option, some, List, ◌++◌, reverse, ℤ, false, arith}
use endweave.Exec.{ok, ◌>>=◌, ◌>>◌}
use endweave.Codec.Word.{to_le, signed_word}
use endweave.Codec.FieldType.Primitives.{Codes-int_be}
use endweave.Codec.Reader.View.{Holds, Holds-advance}
use endweave.Codec.Wrapper
use endweave.Codec.Wrapper.{PacketWrapper, wrap, to_bytes}
use endweave.Codec.Wrapper.Fields.{moved, to_bytes-Holds}
use endweave.Connection.{User, debug_connected, log}
use endweave.Protocol.Base.{detect_client_protocol, rewrite_login}

-- The four bytes of a protocol number.
abbrev pub version_bytes : ℕ → List ℕ
version_bytes word = reverse (to_le 4 word)

pub start_Holds :
    {U : Type 0} (payload : List ℕ) (u : Option U) → Holds (wrap payload u).reader payload
start_Holds payload u = record { within = omega arith; left = refl }

-- A handler's result: it returned, the packet is not cancelled and has the payload `out`, and the
-- connection is `u`.
pub record Forwards (result : endweave.Exec.Result (Unit {0}) × PacketWrapper User) (out : List ℕ)
    (u : User) : Type 0 where
  pub returns : result.0 ≡ ok tt
  pub passes : result.1.cancelled ≡ false
  pub output : to_bytes result.1 ≡ out
  pub user : result.1.connection ≡ some u

module _ (u : User) (client : ℤ) (word server_word : ℕ) (rest : List ℕ)
    (is_client : signed_word (256 ^ 4) client ≡ some word)
    (is_server : signed_word (256 ^ 4) u.server_protocol ≡ some server_word) where
  abbrev old : List ℕ
  old = version_bytes word

  abbrev new : List ℕ
  new = version_bytes server_word

  abbrev packet : PacketWrapper User
  packet = wrap (old ++ rest) (some u)

  abbrev detected : User
  detected = record u { client_protocol = client }

  abbrev sent : User → PacketWrapper User
  sent v = record (moved packet old new) { connection = some v }

  sent_bytes : (v : User) → to_bytes (sent v) ≡ new ++ rest
  sent_bytes v =
      to_bytes-Holds (sent v) rest
        (Holds-advance packet.reader old rest (start_Holds (old ++ rest) (some u)))

  -- RequestNetworkSettings: the connection learns the client's protocol, and the server sees its own.
  pub detect_client_protocol_lem :
      Forwards
        (detect_client_protocol packet)
        (new ++ rest)
        (log (debug_connected client u.server_protocol) detected)
  unfolding detect_client_protocol Wrapper.user Wrapper.set_user Wrapper.read Wrapper.write
  detect_client_protocol_lem =
      rw run (record { returns = refl; passes = refl; output = sent_bytes _; user = refl })
    where
      run :
          detect_client_protocol packet
          ≡ (ok tt, sent (log (debug_connected client u.server_protocol) detected))
      run =
          rw
            ((Codes-int_be client word is_client).reads.at packet.reader rest
              (start_Holds _ (some u)))
            (rw ((Codes-int_be u.server_protocol server_word is_server).writes.at packet.writer))

  -- Login: the server sees its own protocol; the connection stays as it is.
  pub rewrite_login_lem : Forwards (rewrite_login packet) (new ++ rest) u
  unfolding rewrite_login Wrapper.user Wrapper.read Wrapper.write
  rewrite_login_lem =
      rw run (record { returns = refl; passes = refl; output = sent_bytes u; user = refl })
    where
      run : rewrite_login packet ≡ (ok tt, sent u)
      run =
          rw
            ((Codes-int_be client word is_client).reads.at packet.reader rest
              (start_Holds _ (some u)))
            (rw ((Codes-int_be u.server_protocol server_word is_server).writes.at packet.writer))
