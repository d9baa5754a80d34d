-- ===== src/Proxy/Path/Split.antt =====
-- Splitting a path at its slashes, and joining it.
use proxy.Common.{
  ℕ, ◌≡◌, refl, ap, ◌∙◌, false, List, [], ◌∷◌, ◌++◌, All, Bool-cases, inl, inr, ◌==◌,
}
use proxy.Common.Text.{Str, split, cons_head}
use proxy.Proxy.Path.{join}

-- A text without a slash.
abbrev pub NoSlash : Str → Type 0
NoSlash s = All (λ c. (c == b'/') ≡ false) s

cons_head-NoSlash :
    (c : ℕ) (ps : List Str) → (c == b'/') ≡ false → All NoSlash ps → All NoSlash (cons_head c ps)
cons_head-NoSlash c [] h k = ((h, tt), tt)
cons_head-NoSlash c (p ∷ ps) h (k, ks) = ((h, k), ks)

-- The pieces have no slash.
pub split-NoSlash : (s : Str) → All NoSlash (split b'/' s)
unfolding split
split-NoSlash [] = (tt, tt)
split-NoSlash (c ∷ s) = elim (Bool-cases (c == b'/')) [
  | inl e ↦ rw e (tt, split-NoSlash s)
  | inr e ↦ rw e (cons_head-NoSlash c (split b'/' s) e (split-NoSlash s))
]

-- A piece without a slash stays whole.
split-append : (s rest : Str) → NoSlash s → split b'/' (s ++ b'/' ∷ rest) ≡ s ∷ split b'/' rest
unfolding split
split-append [] rest h = refl
split-append (c ∷ s) rest (h, k) = rw (h, split-append s rest k) refl

split-one : (s : Str) → NoSlash s → split b'/' s ≡ s ∷ []
unfolding split
split-one [] h = refl
split-one (c ∷ s) (h, k) = rw (h, split-one s k) refl

-- Splitting undoes joining, for a list that is not empty.
pub split-join :
    (s : Str) (ss : List Str) → All NoSlash (s ∷ ss) → split b'/' (join (s ∷ ss)) ≡ s ∷ ss
unfolding join
split-join s [] (h, k) = split-one s h
split-join s (t ∷ ss) (h, k) =
    split-append s (join (t ∷ ss)) h ∙ ap (λ l. s ∷ l) (split-join t ss k)
