-- ===== src/Sni.antt =====
-- src/sni.rs: the server name of a TLS ClientHello. A byte is a number below 256.
pub mod Encode
pub mod Walk
pub mod RoundTrip
pub mod Total
mod Examples
use proxy.Common.{
  ℕ, zero, suc, ◌+◌, ◌-◌, ◌*◌, min, Bool, true, false, ◌&&◌, ◌||◌, not, Option, none, some, List,
  [], ◌∷◌, length, take, drop, get_elem?, if◌then◌else◌, ◌==◌, leb, ltb, ◌>>=◌, unwrap_or,
}

abbrev pub Bytes : Type 0
Bytes = List ℕ

-- `slice.get(n..)` and `slice.get(..n)`.
unfoldable pub get_from : ℕ → Bytes → Option Bytes
get_from n xs = if leb n (length xs) then some (drop n xs) else none

unfoldable pub get_to : ℕ → Bytes → Option Bytes
get_to n xs = if leb n (length xs) then some (take n xs) else none

-- `u16::from_be_bytes`.
abbrev pub from_be_bytes : ℕ → ℕ → ℕ
from_be_bytes hi lo = hi * 256 + lo

-- What a byte that starts a character asks for: how many bytes follow, and the range of the next.
abbrev in_range : ℕ → ℕ → ℕ → Bool
in_range lo hi b = leb lo b && leb b hi

abbrev pub utf8_lead : ℕ → Option (ℕ × ℕ × ℕ)
utf8_lead b =
    if ltb b 128
    then some (0, 0, 0)
    else (if in_range 194 223 b
        then some (1, 128, 191)
        else (if b == 224
            then some (2, 160, 191)
            else (if b == 237
                then some (2, 128, 159)
                else (if in_range 225 239 b
                    then some (2, 128, 191)
                    else (if b == 240
                        then some (3, 144, 191)
                        else (if in_range 241 243 b
                            then some (3, 128, 191)
                            else (if b == 244 then some (3, 128, 143) else none)))))))

-- `std::str::from_utf8` tests that the bytes are UTF-8: `n` more bytes of a character are expected,
-- the next of them between `lo` and `hi`.
unfoldable pub utf8_rest : ℕ → ℕ → ℕ → Bytes → Bool
utf8_rest zero lo hi [] = true
utf8_rest (suc n) lo hi [] = false
utf8_rest zero lo hi (b ∷ s) = elim (utf8_lead b) [
  | none ↦ false
  | some (n, next_lo, next_hi) ↦ utf8_rest n next_lo next_hi s
]
utf8_rest (suc n) lo hi (b ∷ s) = in_range lo hi b && utf8_rest n 128 191 s

abbrev pub is_utf8 : Bytes → Bool
is_utf8 s = utf8_rest 0 0 0 s

unfoldable pub from_utf8 : Bytes → Option Bytes
from_utf8 s = if is_utf8 s then some s else none

-- The loop of `parse_sni_extension` over the entries that are left, with the fuel that is left: `none`
-- when the fuel is used up, otherwise what the function returns.
unfoldable pub sni_entries : ℕ → Bytes → Option (Option Bytes)
sni_entries zero bytes = none
sni_entries (suc fuel) (name_type ∷ hi ∷ lo ∷ bytes) =
    let name_len = from_be_bytes hi lo in
    let next = sni_entries fuel (drop name_len bytes) in
    if ltb (length bytes) name_len
    then some none
    else (if name_type == 0 then some (from_utf8 (take name_len bytes)) else next)
sni_entries (suc fuel) _ = some none

unfoldable pub parse_sni_extension : Bytes → Option (Option Bytes)
unfolding sni_entries from_utf8
parse_sni_extension bytes =
    if ltb (length bytes) 2 then some none else sni_entries (suc (length bytes)) (drop 2 bytes)

-- `?` in the loop: without the bytes the function returns no name.
abbrev or_ends : Option Bytes → (Bytes → Option (Option Bytes)) → Option (Option Bytes)
or_ends none next = some none
or_ends (some bytes) next = next bytes

-- The loop of `parse_client_hello_sni` over the extensions that are left, likewise.
unfoldable pub extension_loop : ℕ → Bytes → Option (Option Bytes)
unfolding parse_sni_extension get_from get_to
extension_loop zero ext = none
extension_loop (suc fuel) (t1 ∷ t2 ∷ l1 ∷ l2 ∷ ext) =
    let ext_data_len = from_be_bytes l1 l2 in
    let next = extension_loop fuel (drop ext_data_len ext) in
    or_ends (get_to ext_data_len ext)
      (λ ext_data. if from_be_bytes t1 t2 == 0 then parse_sni_extension ext_data else next)
extension_loop (suc fuel) _ = some none

-- The steps of `parse_client_hello_sni`: the payload of the record, the rest after the handshake
-- header, the version and the random, the rest after a field with a length of one byte or of two
-- bytes, and the extensions.
unfoldable pub record_payload : Bytes → Option Bytes
unfolding get_to
record_payload (content_type ∷ v1 ∷ v2 ∷ hi ∷ lo ∷ rest) =
    if content_type == 0x16 then get_to (min (from_be_bytes hi lo) (length rest)) rest else none
record_payload _ = none

unfoldable pub client_hello : Bytes → Option Bytes
unfolding get_from
client_hello [] = none
client_hello (handshake_type ∷ rest) =
    if handshake_type == 1
    then (get_from 4 (handshake_type ∷ rest) >>= λ hs. get_from 34 hs)
    else none

unfoldable pub skip_u8_field : Bytes → Option Bytes
unfolding get_from
skip_u8_field [] = none
skip_u8_field (len ∷ rest) = get_from (1 + len) (len ∷ rest)

unfoldable pub skip_u16_field : Bytes → Option Bytes
unfolding get_from
skip_u16_field (hi ∷ lo ∷ rest) = get_from (2 + from_be_bytes hi lo) (hi ∷ lo ∷ rest)
skip_u16_field _ = none

unfoldable pub extensions : Bytes → Option Bytes
unfolding get_to
extensions (hi ∷ lo ∷ rest) = get_to (min (from_be_bytes hi lo) (length rest)) rest
extensions _ = none

unfoldable pub parse_client_hello_sni : Bytes → Option Bytes
unfolding record_payload client_hello skip_u8_field skip_u16_field extensions extension_loop
parse_client_hello_sni buf = do
  payload ← record_payload buf
  fields ← client_hello payload
  cipher_suites ← skip_u8_field fields
  compression ← skip_u16_field cipher_suites
  after ← skip_u8_field compression
  ext ← extensions after
  unwrap_or none (extension_loop (suc (length ext)) ext)

unfoldable pub record_total_len : Bytes → Option ℕ
record_total_len (b0 ∷ b1 ∷ b2 ∷ hi ∷ lo ∷ rest) = some (5 + from_be_bytes hi lo)
record_total_len _ = none
