-- ===== src/Sni/RoundTrip.antt =====
-- The parser on an encoded ClientHello.
use proxy.Common.{
  ℕ, zero, suc, ◌+◌, ◌/◌, ◌%◌, ◌≤◌, ◌<◌, ◌≡◌, ◌≢◌, sym, ap, ◌∙◌, true, unwrap_or, none, some, List,
  [], ◌∷◌, ◌++◌, arith, length, length-append, All,
}
use proxy.Sni.{
  Bytes, get_from, is_utf8, extension_loop, client_hello, parse_client_hello_sni, record_total_len,
  from_be_bytes,
}
use proxy.Sni.Encode.{
  field16, field8, Extension, encode_extension, encode_extensions, server_name, Hello,
  hello_extensions, hello_fields, handshake, encode_record,
}
use proxy.Sni.Walk.{
  get_from-append, skip_u8_field-field8, skip_u16_field-field16, extensions-field16,
  record_payload-encode, extension_loop-pass, extension_loop-server_name,
}

-- The extension is not a server name.
abbrev pub NotServerName : Extension → Type 0
NotServerName e = e.ext_type ≢ 0

extension_loop-found :
    (before : List Extension) (fuel : ℕ) (name rest : Bytes)
    → All NotServerName before
    → length before < fuel
    → is_utf8 name ≡ true
    → extension_loop fuel (encode_extensions before (encode_extension (server_name name) rest))
      ≡ some (some name)
extension_loop-found before zero name rest a l u = absurd (omega (arith, l))
extension_loop-found [] (suc fuel) name rest a l u = extension_loop-server_name fuel name rest u
extension_loop-found (e ∷ es) (suc fuel) name rest (ne, a) l u =
    extension_loop-pass fuel e _ ne ∙ extension_loop-found es fuel name rest a (omega (arith, l)) u

length-encode_extensions :
    (es : List Extension) (rest : Bytes)
    → length es + length rest ≤ length (encode_extensions es rest)
length-encode_extensions [] rest = omega arith
length-encode_extensions (e ∷ es) rest =
    omega
      (arith, length-encode_extensions es rest, length-append e.body (encode_extensions es rest))

client_hello-handshake :
    (h : Hello) (l1 l2 l3 : ℕ)
    → length h.version_random ≡ 34
    → client_hello (handshake h l1 l2 l3) ≡ some (hello_fields h)
unfolding client_hello
client_hello-handshake h l1 l2 l3 e =
    let a : get_from 4 (handshake h l1 l2 l3) ≡ some (h.version_random ++ hello_fields h) =
      get_from-append 4 (1 ∷ l1 ∷ l2 ∷ l3 ∷ []) (h.version_random ++ hello_fields h)
        (omega arith) in
    rw a (get_from-append 34 h.version_random (hello_fields h) (sym e))

-- The server name of a ClientHello in one TLS record is found, whatever the record's version, the
-- session id, the cipher suites, the compression methods, the other extensions and the bytes after
-- the record, when the version and the random have 34 bytes, no extension before the server name is
-- another server name, and the name is UTF-8.
pub parse_client_hello_sni-encode :
    (h : Hello) (v1 v2 l1 l2 l3 : ℕ) (rest : Bytes)
    → length h.version_random ≡ 34
    → All NotServerName h.before
    → is_utf8 h.name ≡ true
    → parse_client_hello_sni (encode_record v1 v2 (handshake h l1 l2 l3) rest) ≡ some h.name
unfolding parse_client_hello_sni
parse_client_hello_sni-encode h v1 v2 l1 l2 l3 rest len a u =
    let more = encode_extensions h.after [] in
    let last = encode_extension (server_name h.name) more in
    let enough : length h.before < suc (length (hello_extensions h)) =
      omega (arith, length-encode_extensions h.before last) in
    rw
      (
        record_payload-encode v1 v2 (handshake h l1 l2 l3) rest,
        client_hello-handshake h l1 l2 l3 len,
        skip_u8_field-field8 h.session_id
            (field16 h.cipher_suites (field8 h.compression (field16 (hello_extensions h) []))),
        skip_u16_field-field16 h.cipher_suites
            (field8 h.compression (field16 (hello_extensions h) [])),
        skip_u8_field-field8 h.compression (field16 (hello_extensions h) []),
        extensions-field16 (hello_extensions h) [],
      )
      (ap (unwrap_or none)
        (extension_loop-found h.before (suc (length (hello_extensions h))) h.name more a enough u))

-- The length that is read from the header of a record is that of the record, whatever follows it:
-- with that many bytes the record is complete.
pub record_total_len-encode :
    (v1 v2 : ℕ) (payload rest : Bytes)
    → record_total_len (encode_record v1 v2 payload rest)
      ≡ some (length (encode_record v1 v2 payload []))
unfolding record_total_len
record_total_len-encode v1 v2 payload rest =
    let n = length payload in
    let e : 5 + from_be_bytes (n / 256) (n % 256) ≡ length (encode_record v1 v2 payload []) =
      omega (arith, length-append payload []) in
    ap (λ k. some k) e
