-- ===== src/Proxy/Path/Normal.antt =====
-- What `normalize_path` accepts, and that what it gives is normal.
use mathlib.Core.Path.{subst}
use mathlib.Core.Option.{some-injective}
use proxy.Common.{
  ℕ, zero, suc, ◌≡◌, refl, sym, ap, ◌∙◌, append-nil, Option-cases, length, Bool, true, false, not,
  ◌&&◌, Option, none, some, List, [], ◌∷◌, ◌++◌, map, filter, arith, All, Bool-cases, inl, inr,
  is_some, ◌>>=◌, >>=-eq-some,
}
use proxy.Common.Text.{Str, codes, split, starts_with, strip_prefix, is_empty}
use proxy.Compile.Trie.{split_path}
use proxy.Proxy.Path.{
  join, Segment, skip, up, down, kind_of, pop, visit, walk_segments, rev_onto, render,
  render_option, normalize_path,
}
use proxy.Proxy.Path.Split.{NoSlash, split-NoSlash, split-join}

-- A segment that is a name: not empty, not `.`, not `..`, and without a slash.
abbrev pub IsName : Str → Type 0
IsName s = (kind_of s ≡ down) × NoSlash s

pop-IsName : (stack t : List Str) → All IsName stack → pop stack ≡ some t → All IsName t
pop-IsName [] t h e = ground arith
pop-IsName (s ∷ stack) t (a, h) e = subst (All IsName) (some-injective _ _ e) h

visit-IsName :
    (k : Segment) (s : Str) (stack t : List Str)
    → kind_of s ≡ k
    → NoSlash s
    → All IsName stack
    → visit k s stack ≡ some t
    → All IsName t
visit-IsName skip s stack t k n h e = subst (All IsName) (some-injective _ _ e) h
visit-IsName up s stack t k n h e = pop-IsName stack t h e
visit-IsName down s stack t k n h e = subst (All IsName) (some-injective _ _ e) ((k, n), h)

walk_segments-IsName :
    (segments stack t : List Str)
    → All NoSlash segments
    → All IsName stack
    → walk_segments segments stack ≡ some t
    → All IsName t
unfolding walk_segments
walk_segments-IsName [] stack t n h e = subst (All IsName) (some-injective _ _ e) h
walk_segments-IsName (s ∷ segments) stack t (n, ns) h e =
    let (u, ev, ew) = >>=-eq-some (visit (kind_of s) s stack) (walk_segments segments) e in
    walk_segments-IsName segments u t ns (visit-IsName (kind_of s) s stack u refl n h ev) ew

-- Names are pushed.
walk_segments-rev_onto :
    (segments stack : List Str)
    → All IsName segments
    → walk_segments segments stack ≡ some (rev_onto segments stack)
unfolding walk_segments rev_onto
walk_segments-rev_onto [] stack h = refl
walk_segments-rev_onto (s ∷ segments) stack ((k, n), h) =
    rw k (walk_segments-rev_onto segments (s ∷ stack) h)

rev_onto-IsName : (xs ys : List Str) → All IsName xs → All IsName ys → All IsName (rev_onto xs ys)
unfolding rev_onto
rev_onto-IsName [] ys h k = k
rev_onto-IsName (x ∷ xs) ys (a, h) k = rev_onto-IsName xs (x ∷ ys) h (a, k)

rev_onto-rev_onto : (xs ys zs : List Str) → rev_onto (rev_onto xs ys) zs ≡ rev_onto ys (xs ++ zs)
unfolding rev_onto
rev_onto-rev_onto [] ys zs = refl
rev_onto-rev_onto (x ∷ xs) ys zs = rev_onto-rev_onto xs (x ∷ ys) zs

IsName-NoSlash : (xs : List Str) → All IsName xs → All NoSlash xs
IsName-NoSlash [] h = tt
IsName-NoSlash (x ∷ xs) ((a, n), h) = (n, IsName-NoSlash xs h)

-- The pieces of a rendered stack: an empty one, and the names, or again an empty one if there are none.
abbrev pieces : List Str → List Str
pieces [] = [] ∷ []
pieces (s ∷ ss) = s ∷ ss

split-render :
    (names : List Str) → All IsName names → split b'/' (b'/' ∷ join names) ≡ [] ∷ pieces names
unfolding split join
split-render [] h = refl
split-render (s ∷ ss) h = ap (λ l. [] ∷ l) (split-join s ss (IsName-NoSlash (s ∷ ss) h))

walk_pieces :
    (names : List Str)
    → All IsName names
    → walk_segments ([] ∷ pieces names) [] ≡ some (rev_onto names [])
unfolding walk_segments rev_onto kind_of
walk_pieces [] h = refl
walk_pieces (s ∷ ss) h = walk_segments-rev_onto (s ∷ ss) [] h

starts_with_slash : (s : Str) → starts_with (b'/' ∷ s) (codes "/") ≡ true
unfolding starts_with strip_prefix
starts_with_slash s = refl

-- A rendered stack of names is normal.
render-normal :
    (stack : List Str) → All IsName stack → normalize_path (render stack) ≡ some (render stack)
unfolding normalize_path render
render-normal stack h =
    let names = rev_onto stack [] in
    let hn = rev_onto-IsName stack [] h tt in
    let back : rev_onto names [] ≡ stack = rev_onto-rev_onto stack [] [] ∙ append-nil stack in
    rw (starts_with_slash (join names), split-render names hn, walk_pieces names hn)
      (ap (λ t. some (b'/' ∷ join (rev_onto t []))) back)

-- The route lookup sees the names of a rendered stack.
filter_names : (names : List Str) → All IsName names → filter (λ s. not (is_empty s)) names ≡ names
unfolding kind_of
filter_names [] h = refl
filter_names ([] ∷ ss) ((k, n), h) = cc
filter_names ((c ∷ s) ∷ ss) ((k, n), h) = ap (λ l. (c ∷ s) ∷ l) (filter_names ss h)

filter-pieces :
    (names : List Str)
    → All IsName names
    → filter (λ s. not (is_empty s)) ([] ∷ pieces names) ≡ names
filter-pieces [] h = refl
filter-pieces (s ∷ ss) h = filter_names (s ∷ ss) h

split_path-render : (names : List Str) → All IsName names → split_path (b'/' ∷ join names) ≡ names
unfolding split_path
split_path-render names h = rw (split-render names h) (filter-pieces names h)

found_stack :
    (path q : Str)
    → normalize_path path ≡ some q
    → (stack : List Str) × All IsName stack × (q ≡ render stack)
unfolding normalize_path
found_stack path q h = elim (Bool-cases (starts_with path (codes "/"))) [
  | inr e ↦ absurd (ground (arith, h, e))
  | inl e ↦ elim (Option-cases (walk_segments (split b'/' path) [])) [
    | inl k ↦ absurd (ground (arith, h, e, k))
    | inr (stack, k) ↦ (
      stack,
      walk_segments-IsName (split b'/' path) [] stack (split-NoSlash path) tt k,
      some-injective _ _ (sym h ∙ rw (e, k) refl),
    )
  ]
]

-- A normalized path is absolute, the route lookup splits it into names, none of them empty, `.` or
-- `..`, and normalizing it again changes nothing.
pub normalize_path-IsName :
    (path q : Str)
    → normalize_path path ≡ some q
    → (starts_with q (codes "/") ≡ true) × All IsName (split_path q) × (normalize_path q ≡ some q)
unfolding render
normalize_path-IsName path q h =
    let (stack, k, e) = found_stack path q h in
    let names = rev_onto stack [] in
    let hn = rev_onto-IsName stack [] k tt in
    rw e (
      starts_with_slash (join names),
      subst (All IsName) (sym (split_path-render names hn)) hn,
      render-normal stack k,
    )

-- Whether steps down and up stay inside, from a depth.
pub stays_inside : ℕ → List Segment → Bool
stays_inside n [] = true
stays_inside n (skip ∷ ks) = stays_inside n ks
stays_inside zero (up ∷ ks) = false
stays_inside (suc n) (up ∷ ks) = stays_inside n ks
stays_inside n (down ∷ ks) = stays_inside (suc n) ks

is_some-render_option : (o : Option (List Str)) → is_some (render_option o) ≡ is_some o
is_some-render_option none = refl
is_some-render_option (some t) = refl

visit-stays_inside :
    (k : Segment) (s : Str) (stack segments : List Str) (ks : List Segment)
    → ((t : List Str) → is_some (walk_segments segments t) ≡ stays_inside (length t) ks)
    → is_some (visit k s stack >>= walk_segments segments) ≡ stays_inside (length stack) (k ∷ ks)
unfolding stays_inside
visit-stays_inside skip s stack segments ks ih = ih stack
visit-stays_inside up s [] segments ks ih = refl
visit-stays_inside up s (x ∷ stack) segments ks ih = ih stack
visit-stays_inside down s stack segments ks ih = ih (s ∷ stack)

walk_segments-stays_inside :
    (segments stack : List Str)
    → is_some (walk_segments segments stack) ≡ stays_inside (length stack) (map kind_of segments)
unfolding walk_segments stays_inside
walk_segments-stays_inside [] stack = refl
walk_segments-stays_inside (s ∷ segments) stack =
    visit-stays_inside (kind_of s) s stack segments (map kind_of segments)
      (λ t. walk_segments-stays_inside segments t)

-- A path is normalized exactly when it is absolute and no prefix of its segments goes up more often
-- than it goes down; every other path is rejected.
pub normalize_path_accepts :
    (path : Str)
    → is_some (normalize_path path)
      ≡ (starts_with path (codes "/") && stays_inside 0 (map kind_of (split b'/' path)))
unfolding normalize_path
normalize_path_accepts path =
    let e = walk_segments-stays_inside (split b'/' path) [] in
    elim (Bool-cases (starts_with path (codes "/"))) [
      | inl k ↦ rw k (is_some-render_option (walk_segments (split b'/' path) []) ∙ e)
      | inr k ↦ rw k refl
    ]
