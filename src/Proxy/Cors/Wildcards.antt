-- ===== src/Proxy/Cors/Wildcards.antt =====
-- What an allowed origin is, without the splitting and stripping.
use mathlib.Core.List.{Memᴰ}
use mathlib.Core.List.Memᴰ
use mathlib.Core.Option.{some-injective}
use mathlib.Core.Path.{subst}
use proxy.Common.{
  ℕ, ◌≡◌, ◌↔◌, refl, sym, ap, ◌∙◌, ◌⊎◌, inl, inr, Bool, true, false, not, ◌||◌, ◌>>=◌, >>=-eq-some,
  Option, none, some, is_some_and, List, [], ◌∷◌, ◌++◌, Option-cases, Bool-cases, arith,
}
use proxy.Common.Text.{
  Str, codes, str_eq, str_eq_iff, eq_ignore_ascii_case, strip_prefix, strip_prefix_iff,
  strip_suffix, strip_suffix_iff, is_empty,
}
use proxy.Proxy.Cors.{
  cors_allow_origin, any_allows, wildcard_matches, has_subdomain, split_once_at, split_here,
  cons_before,
}

cons_before_sound :
    (sep : Str) (c : ℕ) (s : Str) (later : Option (Str × Str))
    → ((b a : Str) → later ≡ some (b, a) → s ≡ b ++ (sep ++ a))
    → (b a : Str) → cons_before c later ≡ some (b, a)
    → c ∷ s ≡ b ++ (sep ++ a)
cons_before_sound sep c s none f b a h = ground arith
cons_before_sound sep c s (some (x, y)) f b a h = ground (arith, f x y refl)

split_here_sound :
    (sep t : Str) (here : Option Str) (later : Option (Str × Str))
    → ((a : Str) → here ≡ some a → t ≡ sep ++ a)
    → ((b a : Str) → later ≡ some (b, a) → t ≡ b ++ (sep ++ a))
    → (b a : Str) → split_here here later ≡ some (b, a)
    → t ≡ b ++ (sep ++ a)
split_here_sound sep t none later f g b a h = g b a h
split_here_sound sep t (some r) later f g b a h = ground (arith, f r refl)

-- A split gives back the text.
split_once_at_sound :
    (sep s before after : Str)
    → split_once_at sep s ≡ some (before, after)
    → s ≡ before ++ (sep ++ after)
unfolding split_once_at
split_once_at_sound sep [] before after h = ground (arith, strip_prefix_iff [] sep after)
split_once_at_sound sep (c ∷ s) before after h =
    split_here_sound sep (c ∷ s) (strip_prefix (c ∷ s) sep) (cons_before c (split_once_at sep s))
      (λ a. (strip_prefix_iff (c ∷ s) sep a).0)
      (λ b a e. cons_before_sound sep c s (split_once_at sep s) (split_once_at_sound sep s) b a e)
      before after h

-- An allowed origin with a wildcard, split at its first `*.`, and an origin that has a name of its
-- own and a dot in place of the star.
abbrev pub WildcardFits : Str → Str → Type 0
WildcardFits origin allowed =
    (pre : Str) × (suffix : Str) × (sub : Str) × (split_once_at (codes "*.") allowed
      ≡ some (pre, suffix))
    × (allowed ≡ pre ++ (codes "*." ++ suffix))
    × (origin ≡ pre ++ ((sub ++ codes ".") ++ suffix))
    × (is_empty sub ≡ false)

abbrev pub Allows : Str → Str → Type 0
Allows origin allowed =
    (allowed ≡ codes "*")
    ⊎ ((eq_ignore_ascii_case allowed origin ≡ true) ⊎ WildcardFits origin allowed)

is_some_and_iff :
    {A : Type 0} (p : A → Bool) (o : Option A)
    → (is_some_and p o ≡ true) ↔ ((a : A) × (o ≡ some a) × (p a ≡ true))
is_some_and_iff p none = (λ h. absurd (ground (arith, h)), λ (a, e, k). absurd (ground (arith, e)))
is_some_and_iff p (some x) =
    (λ h. (x, refl, h), λ (a, e, k). subst (λ y. p y ≡ true) (some-injective _ _ (sym e)) k)

has_subdomain_iff :
    (suffix rest : Str)
    → (has_subdomain suffix rest ≡ true)
      ↔ ((sub : Str) × (rest ≡ (sub ++ codes ".") ++ suffix) × (is_empty sub ≡ false))
has_subdomain_iff suffix rest = (
  λ h.
      let (sub, e, ne) = (is_some_and_iff (λ r. not (is_empty r)) (inner rest)).0 h in
      let (r, e1, e2) =
        >>=-eq-some (strip_suffix rest suffix) (λ r. strip_suffix r (codes ".")) e in
      let at_suffix = (strip_suffix_iff rest suffix r).0 e1 in
      let at_dot = (strip_suffix_iff r (codes ".") sub).0 e2 in
      (sub, at_suffix ∙ ap (λ t. t ++ suffix) at_dot, ground (arith, ne)),
  λ (sub, e, ne).
      let e1 = (strip_suffix_iff rest suffix (sub ++ codes ".")).1 e in
      let e2 = (strip_suffix_iff (sub ++ codes ".") (codes ".") sub).1 refl in rw (e1, e2, ne) refl,
)
  where
    inner : Str → Option Str
    inner t = strip_suffix t suffix >>= λ r. strip_suffix r (codes ".")

wildcard_matches_iff :
    (origin allowed : Str) → (wildcard_matches origin allowed ≡ true) ↔ WildcardFits origin allowed
unfolding wildcard_matches
wildcard_matches_iff origin allowed = elim (Option-cases (split_once_at (codes "*.") allowed)) [
  | inl e ↦ (
    λ h. absurd (ground (arith, rw e at h)),
    λ (pre, suffix, sub, k, split, o, ne). absurd (ground (arith, e, k)),
  )
  | inr ((pre, suffix), e) ↦ (
    λ h.
        let g : is_some_and (has_subdomain suffix) (strip_prefix origin pre) ≡ true = rw e at h in
        let (rest, e1, hs) =
          (is_some_and_iff (has_subdomain suffix) (strip_prefix origin pre)).0 g in
        let (sub, e2, ne) = (has_subdomain_iff suffix rest).0 hs in
        (
          pre,
          suffix,
          sub,
          e,
          split_once_at_sound (codes "*.") allowed pre suffix e,
          (strip_prefix_iff origin pre rest).0 e1 ∙ ap (λ t. pre ++ t) e2,
          ne,
        ),
    λ (pre', suffix', sub, k, split, o, ne).
        let e1 = (strip_prefix_iff origin pre' ((sub ++ codes ".") ++ suffix')).1 o in
        let hs = (has_subdomain_iff suffix' ((sub ++ codes ".") ++ suffix')).1 (sub, refl, ne) in
        rw (k, e1) hs,
  )
]

Allows-iff :
    (origin allowed : Str)
    → ((str_eq allowed (codes "*")
          || (eq_ignore_ascii_case allowed origin || wildcard_matches origin allowed))
        ≡ true)
      ↔ Allows origin allowed
Allows-iff origin allowed = (
  λ h. elim (Bool-cases (str_eq allowed (codes "*"))) [
    | inl t ↦ inl ((str_eq_iff allowed (codes "*")).0 t)
    | inr f ↦ elim (Bool-cases (eq_ignore_ascii_case allowed origin)) [
      | inl t ↦ inr (inl t)
      | inr g ↦ inr (inr ((wildcard_matches_iff origin allowed).0 (ground (arith, h, f, g))))
    ]
  ],
  λ k. elim k [
    | inl e ↦ ground (arith, (str_eq_iff allowed (codes "*")).1 e)
    | inr (inl t) ↦ ground (arith, t)
    | inr (inr w) ↦ ground (arith, (wildcard_matches_iff origin allowed).1 w)
  ],
)

any_allows_iff :
    (origin : Str) (allow_origins : List Str)
    → (any_allows origin allow_origins ≡ true)
      ↔ ((allowed : Str) × Memᴰ allowed allow_origins × Allows origin allowed)
unfolding any_allows
any_allows_iff origin [] = (λ h. absurd (ground (arith, h)), λ (a, m, k). elim m [ ])
any_allows_iff origin (a ∷ rest) = (
  λ h. elim (Bool-cases (any_allows origin rest)) [
    | inl t ↦ let (b, m, k) = (any_allows_iff origin rest).0 t in (b, Memᴰ.tail m, k)
    | inr f ↦ (a, Memᴰ.head refl, (Allows-iff origin a).0 (ground (arith, h, f)))
  ],
  λ (b, m, k). elim (Memᴰ.cases_cons m) [
    | inl e ↦ ground (arith, (Allows-iff origin a).1 (subst (λ t. Allows origin t) e k))
    | inr t ↦ let later = (any_allows_iff origin rest).1 (b, t, k) in ground (arith, later)
  ],
)

-- An origin is allowed exactly when the list is empty and credentials are not allowed, or when an
-- origin of the list is `*`, or is the origin up to the case of letters, or has a wildcard that the
-- origin fits.
pub cors_allow_origin_iff :
    (origin : Str) (allow_origins : List Str) (allow_credentials : Bool)
    → (cors_allow_origin origin allow_origins allow_credentials ≡ true) ↔ (
        ((allow_origins ≡ []) × (allow_credentials ≡ false))
        ⊎ ((allowed : Str) × Memᴰ allowed allow_origins × Allows origin allowed))
unfolding cors_allow_origin
cors_allow_origin_iff origin [] allow_credentials = (
  λ h. inl (refl, ground (arith, h)),
  λ k. elim k [ inl e ↦ ground (arith, e) | inr (a, m, x) ↦ elim m [ ] ],
)
cors_allow_origin_iff origin (a ∷ rest) allow_credentials = (
  λ h. inr ((any_allows_iff origin (a ∷ rest)).0 h),
  λ k. elim k [
    | inl (e, c) ↦ absurd (ground (arith, e))
    | inr x ↦ (any_allows_iff origin (a ∷ rest)).1 x
  ],
)
