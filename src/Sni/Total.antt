-- ===== src/Sni/Total.antt =====
-- The loops over the extensions and the names end before their fuel is used up.
use proxy.Common.{
  ℕ, zero, suc, ◌≤◌, ◌<◌, ◌≡◌, refl, inl, inr, Option, none, some, [], ◌∷◌, arith, Bool-cases,
  Option-cases, length, take, drop, ltb, ◌==◌,
}
use proxy.Sni.{
  Bytes, get_to, from_utf8, sni_entries, parse_sni_extension, extension_loop, from_be_bytes,
}

length-drop : (n : ℕ) (xs : Bytes) → length (drop n xs) ≤ length xs
length-drop zero xs = omega arith
length-drop (suc n) [] = omega arith
length-drop (suc n) (x ∷ xs) = omega (arith, length-drop n xs)

sni_entries_total :
    (fuel : ℕ) (bytes : Bytes)
    → length bytes < fuel
    → (name : Option Bytes) × (sni_entries fuel bytes ≡ some name)
unfolding sni_entries
sni_entries_total zero bytes h = absurd (omega (arith, h))
sni_entries_total (suc f) [] h = (none, refl)
sni_entries_total (suc f) (a ∷ []) h = (none, refl)
sni_entries_total (suc f) (a ∷ b ∷ []) h = (none, refl)
sni_entries_total (suc f) (a ∷ b ∷ c ∷ bytes) h =
    let n = from_be_bytes b c in
    let (name, e) = sni_entries_total f (drop n bytes) (omega (arith, length-drop n bytes, h)) in
    elim (Bool-cases (ltb (length bytes) n)) [
      | inl short ↦ (none, rw short refl)
      | inr long ↦ elim (Bool-cases (a == 0)) [
        | inl host ↦ (from_utf8 (take n bytes), rw (long, host) refl)
        | inr other ↦ (name, rw (long, other) e)
      ]
    ]

parse_sni_extension_total :
    (bytes : Bytes) → (name : Option Bytes) × (parse_sni_extension bytes ≡ some name)
unfolding parse_sni_extension
parse_sni_extension_total bytes = elim (Bool-cases (ltb (length bytes) 2)) [
  | inl short ↦ (none, rw short refl)
  | inr long ↦
      let (name, e) =
        sni_entries_total (suc (length bytes)) (drop 2 bytes)
          (omega (arith, length-drop 2 bytes)) in
      (name, rw long e)
]

-- The loop over the extensions ends: with more fuel than there are bytes left it returns, and any two
-- such amounts of fuel, the one that the parser gives it among them, return the same.
pub extension_loop_total :
    (f g : ℕ) (ext : Bytes)
    → length ext < f
    → length ext < g
    → (name : Option Bytes) × (extension_loop f ext ≡ some name)
      × (extension_loop g ext ≡ some name)
unfolding extension_loop
extension_loop_total zero g ext h k = absurd (omega (arith, h))
extension_loop_total (suc f) zero ext h k = absurd (omega (arith, k))
extension_loop_total (suc f) (suc g) [] h k = (none, refl, refl)
extension_loop_total (suc f) (suc g) (a ∷ []) h k = (none, refl, refl)
extension_loop_total (suc f) (suc g) (a ∷ b ∷ []) h k = (none, refl, refl)
extension_loop_total (suc f) (suc g) (a ∷ b ∷ c ∷ []) h k = (none, refl, refl)
extension_loop_total (suc f) (suc g) (a ∷ b ∷ c ∷ d ∷ ext) h k =
    let n = from_be_bytes c d in
    let l = length-drop n ext in
    let (name, p, q) =
      extension_loop_total f g (drop n ext) (omega (arith, l, h)) (omega (arith, l, k)) in
    elim (Option-cases (get_to n ext)) [
      | inl short ↦ (none, rw short refl, rw short refl)
      | inr (ext_data, e) ↦ elim (Bool-cases (from_be_bytes a b == 0)) [
        | inl sni ↦
            let (r, s) = parse_sni_extension_total ext_data in (r, rw (e, sni) s, rw (e, sni) s)
        | inr other ↦ (name, rw (e, other) p, rw (e, other) q)
      ]
    ]
