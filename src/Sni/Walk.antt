-- ===== src/Sni/Walk.antt =====
-- What the steps of the parser do on encoded bytes.
use proxy.Common.{
  ℕ, suc, ◌+◌, ◌/◌, ◌%◌, ◌≡◌, ◌≢◌, refl, ap, min, true, false, some, [], ◌∷◌, ◌++◌, arith, length,
  length-append, take, drop, leb, ltb, ◌==◌,
}
use proxy.Sni.{
  Bytes, get_from, get_to, from_be_bytes, is_utf8, from_utf8, sni_entries, parse_sni_extension,
  extension_loop, record_payload, skip_u8_field, skip_u16_field, extensions,
}
use proxy.Sni.Encode.{field8, field16, Extension, encode_extension, server_name}

pub drop-append : (xs ys : Bytes) → drop (length xs) (xs ++ ys) ≡ ys
drop-append [] ys = refl
drop-append (x ∷ xs) ys = drop-append xs ys

pub take-append : (xs ys : Bytes) → take (length xs) (xs ++ ys) ≡ xs
take-append [] ys = refl
take-append (x ∷ xs) ys = ap (λ t. x ∷ t) (take-append xs ys)

pub from_be_bytes-be16 : (n : ℕ) → from_be_bytes (n / 256) (n % 256) ≡ n
from_be_bytes-be16 n = omega arith

pub get_from-append : (n : ℕ) (xs ys : Bytes) → n ≡ length xs → get_from n (xs ++ ys) ≡ some ys
unfolding get_from
get_from-append n xs ys e =
    let le : leb (length xs) (length (xs ++ ys)) ≡ true = ground (arith, length-append xs ys) in
    rw (e, le, drop-append xs ys) refl

pub get_to-append : (n : ℕ) (xs ys : Bytes) → n ≡ length xs → get_to n (xs ++ ys) ≡ some xs
unfolding get_to
get_to-append n xs ys e =
    let le : leb (length xs) (length (xs ++ ys)) ≡ true = ground (arith, length-append xs ys) in
    rw (e, le, take-append xs ys) refl

pub skip_u8_field-field8 : (bytes rest : Bytes) → skip_u8_field (field8 bytes rest) ≡ some rest
unfolding skip_u8_field
skip_u8_field-field8 bytes rest =
    get_from-append (1 + length bytes) (length bytes ∷ bytes) rest (omega arith)

pub skip_u16_field-field16 : (bytes rest : Bytes) → skip_u16_field (field16 bytes rest) ≡ some rest
unfolding skip_u16_field
skip_u16_field-field16 bytes rest =
    let n = length bytes in
    get_from-append (2 + from_be_bytes (n / 256) (n % 256)) (n / 256 ∷ n % 256 ∷ bytes) rest
      (omega arith)

pub extensions-field16 : (bytes rest : Bytes) → extensions (field16 bytes rest) ≡ some bytes
unfolding extensions
extensions-field16 bytes rest =
    let n = length bytes in
    get_to-append (min (from_be_bytes (n / 256) (n % 256)) (length (bytes ++ rest))) bytes rest
      (omega (arith, length-append bytes rest))

pub record_payload-encode :
    (v1 v2 : ℕ) (bytes rest : Bytes)
    → record_payload (0x16 ∷ v1 ∷ v2 ∷ field16 bytes rest) ≡ some bytes
unfolding record_payload
record_payload-encode v1 v2 bytes rest =
    let n = length bytes in
    get_to-append (min (from_be_bytes (n / 256) (n % 256)) (length (bytes ++ rest))) bytes rest
      (omega (arith, length-append bytes rest))

-- The server name of its own extension.
pub parse_sni_extension-server_name :
    (name : Bytes)
    → is_utf8 name ≡ true
    → parse_sni_extension (server_name name).body ≡ some (some name)
unfolding parse_sni_extension sni_entries from_utf8
parse_sni_extension-server_name name u =
    let n = length name in
    let e = from_be_bytes-be16 n in
    let le : ltb (length (name ++ [])) n ≡ false = ground (arith, length-append name []) in
    let big : ltb (length (server_name name).body) 2 ≡ false = ground arith in
    rw (big, e, le, take-append name [], u) refl

-- The loop passes over an extension of another type.
pub extension_loop-pass :
    (fuel : ℕ) (e : Extension) (rest : Bytes)
    → e.ext_type ≢ 0
    → extension_loop (suc fuel) (encode_extension e rest) ≡ extension_loop fuel rest
unfolding extension_loop
extension_loop-pass fuel e rest ne =
    let t = from_be_bytes-be16 e.ext_type in
    let n = from_be_bytes-be16 (length e.body) in
    let other : (e.ext_type == 0) ≡ false = ground (arith, ne) in
    rw (t, n, get_to-append (length e.body) e.body rest refl, drop-append e.body rest, other) refl

-- It stops at the server name.
pub extension_loop-server_name :
    (fuel : ℕ) (name rest : Bytes)
    → is_utf8 name ≡ true
    → extension_loop (suc fuel) (encode_extension (server_name name) rest) ≡ some (some name)
unfolding extension_loop
extension_loop-server_name fuel name rest u =
    let b = (server_name name).body in
    let n = from_be_bytes-be16 (length b) in
    rw (n, get_to-append (length b) b rest refl) (parse_sni_extension-server_name name u)
