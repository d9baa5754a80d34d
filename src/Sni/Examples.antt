-- ===== src/Sni/Examples.antt =====
-- A ClientHello with a padding extension before its server name.
use proxy.Common.{◌≡◌, refl, true, Option, some, [], ◌∷◌, ◌++◌, arith}
use proxy.Common.Text.{codes}
use proxy.Sni.{Bytes, is_utf8, utf8_rest, extension_loop, parse_client_hello_sni}
use proxy.Sni.Encode.{Hello, handshake, encode_record}
use proxy.Sni.RoundTrip.{parse_client_hello_sni-encode}
use proxy.Sni.Total.{extension_loop_total}

abbrev zeros : Bytes
zeros = 0 ∷ 0 ∷ 0 ∷ 0 ∷ 0 ∷ 0 ∷ 0 ∷ 0 ∷ 0 ∷ 0 ∷ 0 ∷ 0 ∷ 0 ∷ 0 ∷ 0 ∷ 0 ∷ []

abbrev demo_hello : Hello
demo_hello = record {
  version_random = 3 ∷ 3 ∷ zeros ++ zeros;
  session_id = [];
  cipher_suites = 0x13 ∷ 1 ∷ [];
  compression = 0 ∷ [];
  before = record { ext_type = 21; body = zeros } ∷ [];
  name = codes "a.b";
  after = record { ext_type = 23; body = [] } ∷ [];
}

name_is_utf8 : is_utf8 (codes "a.b") ≡ true
unfolding utf8_rest
name_is_utf8 = refl

parse_client_hello_sni-encode_example :
    parse_client_hello_sni (encode_record 3 1 (handshake demo_hello 0 0 80) (1 ∷ 2 ∷ []))
    ≡ some (codes "a.b")
parse_client_hello_sni-encode_example =
    parse_client_hello_sni-encode demo_hello 3 1 0 0 80 (1 ∷ 2 ∷ []) refl
      ((λ e. ground (arith, e)), tt) name_is_utf8

extension_loop_total_example :
    (name : Option Bytes) × (extension_loop 9 (0 ∷ 23 ∷ 0 ∷ 0 ∷ []) ≡ some name)
    × (extension_loop 5 (0 ∷ 23 ∷ 0 ∷ 0 ∷ []) ≡ some name)
extension_loop_total_example =
    extension_loop_total 9 5 (0 ∷ 23 ∷ 0 ∷ 0 ∷ []) (omega arith) (omega arith)
