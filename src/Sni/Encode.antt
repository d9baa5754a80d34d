-- ===== src/Sni/Encode.antt =====
-- A ClientHello in a TLS record, as RFC 5246 and RFC 6066 lay them out.
use proxy.Common.{ℕ, ◌/◌, ◌%◌, List, [], ◌∷◌, ◌++◌, length}
use proxy.Sni.{Bytes}

-- A number below 65536 in two bytes, the greater first.
abbrev pub be16 : ℕ → Bytes → Bytes
be16 n rest = n / 256 ∷ n % 256 ∷ rest

-- A field after its length in one byte or in two.
abbrev pub field8 : Bytes → Bytes → Bytes
field8 bytes rest = length bytes ∷ (bytes ++ rest)

abbrev pub field16 : Bytes → Bytes → Bytes
field16 bytes rest = be16 (length bytes) (bytes ++ rest)

pub record Extension : Type 0 where
  pub ext_type : ℕ
  pub body : Bytes

abbrev pub encode_extension : Extension → Bytes → Bytes
encode_extension e rest = be16 e.ext_type (field16 e.body rest)

abbrev pub encode_extensions : List Extension → Bytes → Bytes
encode_extensions [] rest = rest
encode_extensions (e ∷ es) rest = encode_extension e (encode_extensions es rest)

-- The server name extension with one DNS name, before what follows it.
abbrev pub server_name : Bytes → Extension
server_name name = record {
  ext_type = 0;
  body = be16 (length (0 ∷ field16 name [])) (0 ∷ field16 name []);
}

pub record Hello : Type 0 where
  pub version_random : Bytes
  pub session_id : Bytes
  pub cipher_suites : Bytes
  pub compression : Bytes
  -- The extensions before the server name, the name, and those after it.
  pub before : List Extension
  pub name : Bytes
  pub after : List Extension

abbrev pub hello_extensions : Hello → Bytes
hello_extensions h =
    encode_extensions h.before
      (encode_extension (server_name h.name) (encode_extensions h.after []))

abbrev pub hello_fields : Hello → Bytes
hello_fields h =
    field8 h.session_id
      (field16 h.cipher_suites (field8 h.compression (field16 (hello_extensions h) [])))

-- The handshake message, whose three bytes of length the parser does not read.
abbrev pub handshake : Hello → ℕ → ℕ → ℕ → Bytes
handshake h l1 l2 l3 = 1 ∷ l1 ∷ l2 ∷ l3 ∷ (h.version_random ++ hello_fields h)

-- The record with its version, and what comes after it on the connection.
abbrev pub encode_record : ℕ → ℕ → Bytes → Bytes → Bytes
encode_record v1 v2 payload rest = 0x16 ∷ v1 ∷ v2 ∷ field16 payload rest
