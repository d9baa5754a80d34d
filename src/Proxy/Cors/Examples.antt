-- ===== src/Proxy/Cors/Examples.antt =====
-- An allowed wildcard, and an origin below it.
use mathlib.Core.List.{Memᴰ}
use proxy.Common.{◌≡◌, ◌↔◌, refl, ◌⊎◌, true, false, List, [], ◌∷◌}
use proxy.Common.Text.{Str, codes, str_eq, eq_ignore_ascii_case, strip_prefix, strip_suffix}
use proxy.Proxy.Cors.{cors_allow_origin, any_allows, wildcard_matches, split_once_at}
use proxy.Proxy.Cors.Wildcards.{Allows, cors_allow_origin_iff}

abbrev allowed_list : List Str
allowed_list = codes "https://*.shop.org" ∷ []

cors_allow_origin_iff_example :
    (cors_allow_origin (codes "https://a.shop.org") allowed_list true ≡ true) ↔ (
      ((allowed_list ≡ []) × (true ≡ false))
      ⊎ ((allowed : Str) × Memᴰ allowed allowed_list × Allows (codes "https://a.shop.org") allowed))
cors_allow_origin_iff_example = cors_allow_origin_iff (codes "https://a.shop.org") allowed_list true

below_allowed : cors_allow_origin (codes "https://a.shop.org") allowed_list true ≡ true
unfolding cors_allow_origin any_allows wildcard_matches split_once_at strip_prefix strip_suffix
    str_eq eq_ignore_ascii_case
below_allowed = refl

apex_refused : cors_allow_origin (codes "https://shop.org") allowed_list true ≡ false
unfolding cors_allow_origin any_allows wildcard_matches split_once_at strip_prefix strip_suffix
    str_eq eq_ignore_ascii_case
apex_refused = refl
