-- ===== src/Gateway/Hostnames/Overlap.antt =====
-- The overlap of two patterns, against the host names that each matches.
use mathlib.Core.Path.{subst}
use proxy.Common.{
  ◌≡◌, refl, sym, ap, ◌∙◌, ◌⊎◌, inl, inr, Bool, true, false, ◌&&◌, ◌||◌, Option, none, some, List,
  [], ◌∷◌, ◌++◌, arith, is_some_and, Bool-cases, Option-cases, append_assoc, any, cons_option,
  filter_map,
}
use proxy.Common.Text.{
  Str, codes, str_eq, str_eq_iff, strip_suffix, strip_suffix_iff, ends_with, is_empty,
}
use proxy.Compile.Request.{ir_hostname_matches, under_suffix, strip_dot}
use proxy.Gateway.Hostnames.{
  HostnameMatch, to_ir_hostname, deeper, is_hostname_subset, intersect_hostname_pair,
  intersect_hostnames, parse_listener_hostname,
}

-- A request's host name meets a pattern.
abbrev pub hits : Str → HostnameMatch → Bool
hits host p = ir_hostname_matches host (to_ir_hostname p)

-- What a wildcard matches: a nonempty text, a dot and its suffix.
Under : Str → Str → Type 0
Under s suffix = (r : Str) × (is_empty r ≡ false) × (s ≡ r ++ b'.' ∷ suffix)

under_suffix_sound : (s suffix : Str) → under_suffix s suffix ≡ true → Under s suffix
unfolding under_suffix strip_dot Under
under_suffix_sound s suffix h = elim (Option-cases (strip_suffix s suffix)) [
  | inl e ↦ absurd (ground (arith, h, e))
  | inr (r0, e) ↦ elim (Option-cases (strip_suffix r0 (codes "."))) [
    | inl k ↦ absurd (ground (arith, h, e, k))
    | inr (r, k) ↦
        let e' = (strip_suffix_iff s suffix r0).0 e in
        let k' = (strip_suffix_iff r0 (codes ".") r).0 k in
        (
          r,
          ground (arith, h, e, k),
          e' ∙ ap (λ t. t ++ suffix) k' ∙ append_assoc r (codes ".") suffix,
        )
  ]
]

under_suffix_complete : (s suffix : Str) → Under s suffix → under_suffix s suffix ≡ true
unfolding under_suffix strip_dot Under
under_suffix_complete s suffix (r, ne, e) =
    let a : strip_suffix s suffix ≡ some (r ++ codes ".") =
      (strip_suffix_iff s suffix (r ++ codes ".")).1
        (e ∙ sym (append_assoc r (codes ".") suffix)) in
    let b : strip_suffix (r ++ codes ".") (codes ".") ≡ some r =
      (strip_suffix_iff (r ++ codes ".") (codes ".") r).1 refl in
    rw (a, b, ne) refl

deeper_sound : (c p : Str) → deeper c p ≡ true → (q : Str) × (c ≡ q ++ b'.' ∷ p)
unfolding ends_with
deeper_sound c p h = elim (Option-cases (strip_suffix c p)) [
  | inl e ↦ absurd (ground (arith, h, e))
  | inr (r, e) ↦ elim (Option-cases (strip_suffix r (codes "."))) [
    | inl k ↦ absurd (ground (arith, h, e, k))
    | inr (q, k) ↦ (
      q,
      (strip_suffix_iff c p r).0 e
          ∙ ap (λ t. t ++ p) ((strip_suffix_iff r (codes ".") q).0 k)
          ∙ append_assoc q (codes ".") p,
    )
  ]
]

deeper_complete : (c p q : Str) → c ≡ q ++ b'.' ∷ p → deeper c p ≡ true
unfolding ends_with
deeper_complete c p q e =
    let a : strip_suffix c p ≡ some (q ++ codes ".") =
      (strip_suffix_iff c p (q ++ codes ".")).1 (e ∙ sym (append_assoc q (codes ".") p)) in
    let b : strip_suffix (q ++ codes ".") (codes ".") ≡ some q =
      (strip_suffix_iff (q ++ codes ".") (codes ".") q).1 refl in
    rw (a, b) refl

is_empty_append : (xs ys : Str) → is_empty xs ≡ false → is_empty (xs ++ ys) ≡ false
is_empty_append [] ys h = ground arith
is_empty_append (x ∷ xs) ys h = refl

-- A host name under a deeper wildcard is under the wider one.
Under-wider : (host c p q : Str) → c ≡ q ++ b'.' ∷ p → Under host c → Under host p
unfolding Under
Under-wider host c p q e (r, ne, h) = (
  r ++ b'.' ∷ q,
  is_empty_append r (b'.' ∷ q) ne,
  h ∙ ap (λ t. r ++ b'.' ∷ t) e ∙ sym (append_assoc r (b'.' ∷ q) (b'.' ∷ p)),
)

-- Two ways to cut one text with a dot: at the same place, or one suffix has a dot and the other.
same_text :
    (r s c p : Str)
    → r ++ b'.' ∷ c ≡ s ++ b'.' ∷ p
    → (c ≡ p) ⊎ (((q : Str) × (c ≡ q ++ b'.' ∷ p)) ⊎ ((q : Str) × (p ≡ q ++ b'.' ∷ c)))
same_text [] [] c p e = inl (ground (arith, e))
same_text [] (x ∷ s) c p e = inr (inl (s, ground (arith, e)))
same_text (x ∷ r) [] c p e = inr (inr (r, ground (arith, e)))
same_text (x ∷ r) (y ∷ s) c p e = same_text r s c p (ground (arith, e))

-- Whatever matches a subset pattern matches the other.
pub is_hostname_subset_sound :
    (child parent : HostnameMatch) (host : Str)
    → is_hostname_subset child parent ≡ true
    → hits host child ≡ true
    → hits host parent ≡ true
unfolding is_hostname_subset ir_hostname_matches to_ir_hostname
is_hostname_subset_sound child HostnameMatch.any host s h = refl
is_hostname_subset_sound (HostnameMatch.exact c) (HostnameMatch.exact p) host s h =
    ground (arith, str_eq_iff c p, str_eq_iff host c, str_eq_iff host p)
is_hostname_subset_sound (HostnameMatch.exact c) (HostnameMatch.wildcard p) host s h =
    subst (λ t. under_suffix t p ≡ true) (sym ((str_eq_iff host c).0 h)) s
is_hostname_subset_sound (HostnameMatch.wildcard c) (HostnameMatch.wildcard p) host s h =
    elim (Bool-cases (str_eq c p)) [
      | inl e ↦ subst (λ t. under_suffix host t ≡ true) ((str_eq_iff c p).0 e) h
      | inr e ↦
          let (q, k) = deeper_sound c p (rw e at s) in
          under_suffix_complete host p (Under-wider host c p q k (under_suffix_sound host c h))
    ]
is_hostname_subset_sound (HostnameMatch.wildcard c) (HostnameMatch.exact p) host s h = ground arith
is_hostname_subset_sound HostnameMatch.any (HostnameMatch.exact p) host s h = ground arith
is_hostname_subset_sound HostnameMatch.any (HostnameMatch.wildcard p) host s h = ground arith

opened :
    (s suffix : Str) → Under s suffix → (r : Str) × (is_empty r ≡ false) × (s ≡ r ++ b'.' ∷ suffix)
unfolding Under
opened s suffix u = u

-- Two patterns that match one host name: one is a subset of the other.
pub overlap :
    (a b : HostnameMatch) (host : Str)
    → hits host a ≡ true
    → hits host b ≡ true
    → (is_hostname_subset a b ≡ true) ⊎ (is_hostname_subset b a ≡ true)
unfolding is_hostname_subset ir_hostname_matches to_ir_hostname
overlap a HostnameMatch.any host h k = inl refl
overlap HostnameMatch.any (HostnameMatch.exact p) host h k = inr refl
overlap HostnameMatch.any (HostnameMatch.wildcard p) host h k = inr refl
overlap (HostnameMatch.exact c) (HostnameMatch.exact p) host h k =
    inl (ground (arith, str_eq_iff c p, str_eq_iff host c, str_eq_iff host p))
overlap (HostnameMatch.exact c) (HostnameMatch.wildcard p) host h k =
    inl (subst (λ t. under_suffix t p ≡ true) ((str_eq_iff host c).0 h) k)
overlap (HostnameMatch.wildcard c) (HostnameMatch.exact p) host h k =
    inr (subst (λ t. under_suffix t c ≡ true) ((str_eq_iff host p).0 k) h)
overlap (HostnameMatch.wildcard c) (HostnameMatch.wildcard p) host h k =
    let (r, _, er) = opened host c (under_suffix_sound host c h) in
    let (s, _, es) = opened host p (under_suffix_sound host p k) in
    elim (same_text r s c p (sym er ∙ es)) [
      | inl e ↦ inl (rw ((str_eq_iff c p).1 e) refl)
      | inr (inl (q, e)) ↦ inl (ground (arith, deeper_complete c p q e))
      | inr (inr (q, e)) ↦ inr (ground (arith, deeper_complete p c q e))
    ]

-- The intersection of two patterns matches exactly the host names that both match; where there is
-- no intersection, no host name is matched by both.
pub intersect_hostname_pair_exact :
    (a b : HostnameMatch) (host : Str)
    → is_some_and (λ x. hits host x) (intersect_hostname_pair a b) ≡ (hits host a && hits host b)
unfolding intersect_hostname_pair
intersect_hostname_pair_exact a b host = elim (Bool-cases (is_hostname_subset a b)) [
  | inl s ↦ rw s (ground (arith, is_hostname_subset_sound a b host s))
  | inr s ↦ elim (Bool-cases (is_hostname_subset b a)) [
    | inl t ↦ rw (s, t) (ground (arith, is_hostname_subset_sound b a host t))
    | inr t ↦ rw (s, t) (ground (arith, overlap a b host))
  ]
]

-- Some host name pattern of a list matches.
abbrev pub any_hits : Str → List HostnameMatch → Bool
any_hits host ps = any (λ p. hits host p) ps

any_hits-cons_option :
    (host : Str) (o : Option HostnameMatch) (ps : List HostnameMatch)
    → any_hits host (cons_option o ps) ≡ (is_some_and (λ x. hits host x) o || any_hits host ps)
any_hits-cons_option host none ps = refl
any_hits-cons_option host (some x) ps = refl

pub pairs_exact :
    (ps : List HostnameMatch) (l : HostnameMatch) (host : Str)
    → any_hits host (filter_map (λ p. intersect_hostname_pair p l) ps)
      ≡ (any_hits host ps && hits host l)
pairs_exact [] l host = refl
pairs_exact (p ∷ ps) l host = ground (
  arith,
  any_hits-cons_option host (intersect_hostname_pair p l)
      (filter_map (λ p. intersect_hostname_pair p l) ps),
  intersect_hostname_pair_exact p l host,
  pairs_exact ps l host,
)

-- A route's patterns within a listener's host name match exactly the host names that one of them
-- and the listener match.
pub intersect_hostnames_exact :
    (route_hostnames : List HostnameMatch) (lh host : Str)
    → any_hits host (intersect_hostnames route_hostnames (some lh))
      ≡ (any_hits host route_hostnames && hits host (parse_listener_hostname lh))
unfolding intersect_hostnames
intersect_hostnames_exact rs lh host = pairs_exact rs (parse_listener_hostname lh) host
