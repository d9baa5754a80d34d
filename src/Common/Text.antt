-- ===== src/Common/Text.antt =====
-- Rust's `str` as the list of its UTF-8 bytes, with the library operations that the proxy calls.
use Prim.Native.Char.{code}
use Prim.Native.String.{String}
use proxy.Common.{
  ℕ, ◌+◌, ◌≡◌, refl, ap, ◌↔◌, Bool, true, false, ◌&&◌, Option, none, some, List, [], ◌∷◌, ◌++◌, map,
  arith, length, length-append, leb, ◌==◌, if◌then◌else◌, is_some, Bool-cases, inl, inr,
}
use mathlib.Core.Option

abbrev pub Str : Type 0
Str = List ℕ

-- The bytes of an ASCII literal.
abbrev pub codes : String → Str
codes String.[] = []
codes (String.◌∷◌ c s) = code c ∷ codes s

unfoldable pub str_eq : Str → Str → Bool
str_eq [] [] = true
str_eq (a ∷ s) (b ∷ t) = a == b && str_eq s t
str_eq _ _ = false

pub str_eq_iff : (s t : Str) → (str_eq s t ≡ true) ↔ (s ≡ t)
unfolding str_eq
str_eq_iff [] [] = ground arith
str_eq_iff (a ∷ s) (b ∷ t) = ground (arith, str_eq_iff s t)
str_eq_iff [] (b ∷ t) = ground arith
str_eq_iff (a ∷ s) [] = ground arith

pub str_eq_refl : (s : Str) → str_eq s s ≡ true
str_eq_refl s = (str_eq_iff s s).1 refl

-- `u8::to_ascii_lowercase`.
abbrev pub lower : ℕ → ℕ
lower c = if leb b'A' c && leb c b'Z' then c + 32 else c

unfoldable pub to_ascii_lowercase : Str → Str
to_ascii_lowercase s = map lower s

unfoldable pub eq_ignore_ascii_case : Str → Str → Bool
unfolding to_ascii_lowercase
eq_ignore_ascii_case s t = str_eq (to_ascii_lowercase s) (to_ascii_lowercase t)

pub eq_ignore_ascii_case_refl : (s : Str) → eq_ignore_ascii_case s s ≡ true
unfolding eq_ignore_ascii_case
eq_ignore_ascii_case_refl s = str_eq_refl (to_ascii_lowercase s)

unfoldable pub strip_prefix : Str → Str → Option Str
strip_prefix s [] = some s
strip_prefix [] (p ∷ pre) = none
strip_prefix (c ∷ s) (p ∷ pre) = if c == p then strip_prefix s pre else none

unfoldable pub starts_with : Str → Str → Bool
unfolding strip_prefix
starts_with s pre = is_some (strip_prefix s pre)

unfoldable pub strip_suffix : Str → Str → Option Str
unfolding str_eq
strip_suffix [] suf = if str_eq [] suf then some [] else none
strip_suffix (c ∷ s) suf =
    let rest = strip_suffix s suf in
    if str_eq (c ∷ s) suf then some [] else Option.map (λ r. c ∷ r) rest

unfoldable pub ends_with : Str → Str → Bool
unfolding strip_suffix
ends_with s suf = is_some (strip_suffix s suf)

-- `str::split` on one ASCII character; there is always a piece.
abbrev pub cons_head : ℕ → List Str → List Str
cons_head c [] = (c ∷ []) ∷ []
cons_head c (p ∷ ps) = (c ∷ p) ∷ ps

unfoldable pub split : ℕ → Str → List Str
split sep [] = [] ∷ []
split sep (c ∷ s) = let rest = split sep s in if c == sep then [] ∷ rest else cons_head c rest

-- `str::split_once` on one ASCII character.
unfoldable pub split_once : ℕ → Str → Option (Str × Str)
split_once sep [] = none
split_once sep (c ∷ s) =
    let rest = split_once sep s in
    if c == sep then some ([], s) else Option.map (λ p. (c ∷ p.0, p.1)) rest

abbrev pub is_empty {ℓ} : {A : Type ℓ} → List A → Bool
is_empty [] = true
is_empty (_ ∷ _) = false

-- The laws of the two strips.
pub strip_prefix_iff : (s pre r : Str) → (strip_prefix s pre ≡ some r) ↔ (s ≡ pre ++ r)
unfolding strip_prefix
strip_prefix_iff s [] r = ground arith
strip_prefix_iff [] (p ∷ pre) r = ground arith
strip_prefix_iff (c ∷ s) (p ∷ pre) r = ground (arith, strip_prefix_iff s pre r)

strip_suffix_sound : (s suf r : Str) → strip_suffix s suf ≡ some r → s ≡ r ++ suf
unfolding strip_suffix
strip_suffix_sound [] suf r h = ground (arith, str_eq_iff [] suf)
strip_suffix_sound (c ∷ s) suf [] h = ground (arith, str_eq_iff (c ∷ s) suf)
strip_suffix_sound (c ∷ s) suf (x ∷ r) h =
    ground (arith, str_eq_iff (c ∷ s) suf, strip_suffix_sound s suf r)

strip_suffix_complete : (r suf : Str) → strip_suffix (r ++ suf) suf ≡ some r
unfolding strip_suffix
strip_suffix_complete [] [] = refl
strip_suffix_complete [] (c ∷ suf) = rw (str_eq_refl (c ∷ suf))
strip_suffix_complete (x ∷ r) suf = elim (Bool-cases (str_eq (x ∷ r ++ suf) suf)) [
  | inl e ↦
      let same = (str_eq_iff (x ∷ r ++ suf) suf).0 e in
      absurd (omega (arith, ap length same, length-append r suf))
  | inr e ↦ rw (e, strip_suffix_complete r suf)
]

-- Stripping a suffix succeeds exactly on the texts that end with it.
pub strip_suffix_iff : (s suf r : Str) → (strip_suffix s suf ≡ some r) ↔ (s ≡ r ++ suf)
strip_suffix_iff s suf r = (strip_suffix_sound s suf r, λ e. rw e (strip_suffix_complete r suf))
