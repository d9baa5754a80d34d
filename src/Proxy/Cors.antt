-- ===== src/Proxy/Cors.antt =====
-- src/proxy/match_.rs: which origins a CORS policy allows.
pub mod Wildcards
mod Examples
use proxy.Common.{
  Bool, true, false, not, ◌||◌, ◌>>=◌, Option, none, some, is_some_and, List, [], ◌∷◌,
  if◌then◌else◌,
}
use proxy.Common.Text.{
  Str, codes, str_eq, eq_ignore_ascii_case, strip_prefix, strip_suffix, is_empty,
}

-- `str::split_once` on a text: what stands before and after its first occurrence.
abbrev pub cons_before {ℓ} : {A : Type ℓ} → A → Option (List A × List A) → Option (List A × List A)
cons_before c none = none
cons_before c (some (before, after)) = some (c ∷ before, after)

abbrev pub split_here : Option Str → Option (Str × Str) → Option (Str × Str)
split_here (some after) later = some ([], after)
split_here none later = later

unfoldable pub split_once_at : Str → Str → Option (Str × Str)
split_once_at sep [] = split_here (strip_prefix [] sep) none
split_once_at sep (c ∷ s) =
    let later = cons_before c (split_once_at sep s) in split_here (strip_prefix (c ∷ s) sep) later

-- `rest.strip_suffix(suffix).and_then(|r| r.strip_suffix('.')).is_some_and(|r| !r.is_empty())`.
abbrev pub has_subdomain : Str → Str → Bool
has_subdomain suffix rest =
    is_some_and (λ r. not (is_empty r))
      (strip_suffix rest suffix >>= λ r. strip_suffix r (codes "."))

abbrev pub wildcard_parts : Str → Option (Str × Str) → Bool
wildcard_parts origin none = false
wildcard_parts origin (some (pre, suffix)) =
    is_some_and (has_subdomain suffix) (strip_prefix origin pre)

-- The last test of the loop.
unfoldable pub wildcard_matches : Str → Str → Bool
unfolding split_once_at
wildcard_matches origin allowed = wildcard_parts origin (split_once_at (codes "*.") allowed)

-- The loop over the allowed origins.
unfoldable pub any_allows : Str → List Str → Bool
unfolding wildcard_matches
any_allows origin [] = false
any_allows origin (allowed ∷ rest) =
    str_eq allowed (codes "*")
    || (eq_ignore_ascii_case allowed origin
        || (wildcard_matches origin allowed || any_allows origin rest))

unfoldable pub cors_allow_origin : Str → List Str → Bool → Bool
unfolding any_allows
cors_allow_origin origin [] allow_credentials = not allow_credentials
cors_allow_origin origin (a ∷ rest) allow_credentials = any_allows origin (a ∷ rest)
