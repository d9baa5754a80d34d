-- ===== src/Compile/Host/Candidates.antt =====
-- The candidates of a request at a compiled host: the plans with a prefix, a pattern or no path.
use mathlib.Core.List.{Memᴰ}
use mathlib.Core.Option.{some-injective}
use proxy.Common.{
  ℕ, ◌≡◌, ◌≢◌, refl, sym, ap, ◌∙◌, ◌⊎◌, inl, inr, true, Option, none, some, List, [], ◌++◌,
  filter_sound, filter_complete, &&-split, Memᴰ-append, Memᴰ-append_left, Memᴰ-append_right,
}
use proxy.Common.Text.{Str}
use proxy.Ir.{PathMatch, HostRoute}
use proxy.Compile.Types.{ArcPlan, NodePlans, PathTrieNode}
use proxy.Compile.Request.{
  Regex, Headers, plan_matches, plan_regex_path_matches, regex_is_match, regex_path_fits,
}
use proxy.Compile.Discriminator.{
  Slot, in_bucket, in_any, in_fallback, distribute, no_slots, sort_plans,
}
use proxy.Compile.Discriminator.Placement.{
  slot_complete, slot_sound, unsorted_complete, unsorted_sound,
}
use proxy.Compile.Discriminator.Resolve.{IsCaseExact}
use proxy.Compile.Discriminator.Node.{resolve_sound, resolve_complete}
use proxy.Compile.Trie.{split_path, empty_node, insert_plans, build_discriminators, walk}
use proxy.Compile.Trie.Address.{plans_at, plans_at-empty, plans_at-build_discriminators, address}
use proxy.Compile.Trie.Walk.{
  mem-insert_plans, insert_plans-mem, insert_plans_bare, mem-walk, walk-mem,
}
use proxy.Compile.Host.{assemble, path_slot, plan_slot, candidates}

module _ (re : Regex) where
  -- When a path match accepts a request's path, described without the trie.
  abbrev pub PathFits : Option PathMatch → Str → Type 0
  PathFits none path = Unit
  PathFits (some (PathMatch.prefix s)) path =
      (rest : List Str) × (split_path path ≡ split_path s ++ rest)
  PathFits (some (PathMatch.exact s)) path = s ≡ path
  PathFits (some (PathMatch.regex p)) path = regex_is_match re p path ≡ true

in_any_address :
    (path : Option PathMatch) → path_slot path ≡ in_any → (a : List Str) × (address path ≡ some a)
in_any_address none e = ([], refl)
in_any_address (some (PathMatch.prefix s)) e = (split_path s, refl)
in_any_address (some (PathMatch.exact s)) e = cc
in_any_address (some (PathMatch.regex s)) e = cc

address_fits :
    (re : Regex) (m : Option PathMatch) (path : Str) (a b : List Str)
    → path_slot m ≡ in_any
    → address m ≡ some a
    → split_path path ≡ a ++ b
    → PathFits re m path
address_fits re none path a b e k s = tt
address_fits re (some (PathMatch.prefix p)) path a b e k s =
    (b, s ∙ ap (λ c. c ++ b) (sym (some-injective _ _ k)))
address_fits re (some (PathMatch.exact p)) path a b e k s = cc
address_fits re (some (PathMatch.regex p)) path a b e k s = cc

fits_address :
    (re : Regex) (m : Option PathMatch) (path : Str)
    → path_slot m ≡ in_any
    → PathFits re m path
    → (a b : List Str) × (address m ≡ some a) × (split_path path ≡ a ++ b)
fits_address re none path e f = ([], split_path path, refl, refl)
fits_address re (some (PathMatch.prefix p)) path e f = (split_path p, f.0, refl, f.1)
fits_address re (some (PathMatch.exact p)) path e f = cc
fits_address re (some (PathMatch.regex p)) path e f = cc

pattern_fits :
    (re : Regex) (m : Option PathMatch) (path : Str)
    → path_slot m ≡ in_fallback
    → regex_path_fits re m path ≡ true
    → PathFits re m path
pattern_fits re none path e h = tt
pattern_fits re (some (PathMatch.prefix p)) path e h = cc
pattern_fits re (some (PathMatch.exact p)) path e h = cc
pattern_fits re (some (PathMatch.regex p)) path e h = h

fits_pattern :
    (re : Regex) (m : Option PathMatch) (path : Str)
    → path_slot m ≡ in_fallback
    → PathFits re m path
    → regex_path_fits re m path ≡ true
fits_pattern re none path e h = refl
fits_pattern re (some (PathMatch.prefix p)) path e h = cc
fits_pattern re (some (PathMatch.exact p)) path e h = cc
fits_pattern re (some (PathMatch.regex p)) path e h = h

slot_cases : (sl : Slot) → ((p : Str) × (sl ≡ in_bucket p)) ⊎ ((sl ≡ in_any) ⊎ (sl ≡ in_fallback))
slot_cases (in_bucket p) = inl (p, refl)
slot_cases in_any = inr (inl refl)
slot_cases in_fallback = inr (inr refl)

module _ (iter : List (Str × ℕ) → List (Str × ℕ)) (re : Regex) (method : Str) (headers : Headers)
    (query : Option Str) where
  -- The trie of some plans that have no exact path and no pattern.
  abbrev trie_of : List ArcPlan → PathTrieNode
  trie_of plans = build_discriminators iter (insert_plans empty_node plans)

  bare_at :
      (a : List Str) (plans : List ArcPlan)
      → (plans_at a (insert_plans empty_node plans)).discriminator ≡ none
  bare_at a plans =
      insert_plans_bare a empty_node plans
        (ap (λ (n : NodePlans). n.discriminator) (plans_at-empty a))

  trie_sound :
      (plans : List ArcPlan) (segments : List Str) (q : ArcPlan)
      → Memᴰ q (walk method headers query segments (trie_of plans))
      → Memᴰ q plans
        × (a b : List Str) × (address q.plan.matches.path ≡ some a)
        × (segments ≡ a ++ b)
  trie_sound plans segments q h =
      let (a, b, same, m) = mem-walk method headers query segments (trie_of plans) q h in
      let m' =
        resolve_sound method headers query iter (plans_at a (insert_plans empty_node plans))
          (bare_at a plans) (rw plans_at-build_discriminators at m) in
      elim (mem-insert_plans a empty_node plans q m') [
        | inl k ↦ elim (rw (plans_at-empty a) at k) [ ]
        | inr k ↦ (k.0, a, b, k.1, same)
      ]

  trie_complete :
      (plans : List ArcPlan) (a b : List Str) (q : ArcPlan)
      → IsCaseExact method headers query q.plan.matches
      → plan_matches re method headers query q.plan ≡ true
      → Memᴰ q plans
      → address q.plan.matches.path ≡ some a
      → Memᴰ q (walk method headers query (a ++ b) (trie_of plans))
  trie_complete plans a b q c f m e = walk-mem method headers query a b (trie_of plans) q (
      rw plans_at-build_discriminators (
        resolve_complete method headers query iter re (plans_at a (insert_plans empty_node plans)) q
          (bare_at a plans) c f (insert_plans-mem a empty_node plans q m e)))

  -- A candidate of a compiled host is a plan of it that accepts the path.
  pub candidates_sound :
      (host : HostRoute) (plans : List ArcPlan) (path : Str) (q : ArcPlan)
      → Memᴰ q (candidates re method headers query (assemble iter host plans) path)
      → Memᴰ q plans × PathFits re q.plan.matches.path path
  unfolding candidates assemble plan_regex_path_matches
  candidates_sound host plans path q h =
      let s = distribute plan_slot no_slots plans in
      elim (Memᴰ-append (walk method headers query (split_path path) (trie_of s.any)) _ h) [
        | inl m ↦
            let (at, a, b, addr, same) = trie_sound s.any (split_path path) q m in
            let (here, slot) = unsorted_sound plan_slot in_any plans at in
            (here, address_fits re q.plan.matches.path path a b slot addr same)
        | inr m ↦
            let (at, passes) = filter_sound _ (sort_plans s.fallback) m in
            let (here, slot) = slot_sound plan_slot in_fallback plans at in
            (
              here,
              pattern_fits re q.plan.matches.path path slot
                  (&&-split (plan_matches re method headers query q.plan) _ passes).1,
            )
      ]

  -- Every plan that the request fits is a candidate, but for those with an exact path.
  pub candidates_complete :
      (host : HostRoute) (plans : List ArcPlan) (path : Str) (q : ArcPlan)
      → IsCaseExact method headers query q.plan.matches
      → plan_matches re method headers query q.plan ≡ true
      → Memᴰ q plans
      → PathFits re q.plan.matches.path path
      → ((p : Str) → plan_slot q ≢ in_bucket p)
      → Memᴰ q (candidates re method headers query (assemble iter host plans) path)
  unfolding candidates assemble plan_regex_path_matches
  candidates_complete host plans path q c f m fits ne =
      let s = distribute plan_slot no_slots plans in
      elim (slot_cases (plan_slot q)) [
        | inl (p, e) ↦ absurd (ne p e)
        | inr (inl e) ↦
            let (a, b, addr, same) = fits_address re q.plan.matches.path path e fits in
            let w : Memᴰ q (walk method headers query (split_path path) (trie_of s.any)) =
              rw same (
                trie_complete s.any a b q c f (unsorted_complete plan_slot in_any plans m e)
                  addr) in
            Memᴰ-append_left (walk method headers query (split_path path) (trie_of s.any)) _ w
        | inr (inr e) ↦
            Memᴰ-append_right (walk method headers query (split_path path) (trie_of s.any)) _ (
              filter_complete _ (sort_plans s.fallback)
                (slot_complete plan_slot in_fallback plans m e)
                (rw f (fits_pattern re q.plan.matches.path path e fits)))
      ]
