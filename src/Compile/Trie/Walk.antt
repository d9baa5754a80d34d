-- ===== src/Compile/Trie/Walk.antt =====
-- What insertion puts at each address, and what the walk along a request's segments collects.
use mathlib.Core.List.{Memᴰ}
use mathlib.Core.Option.{some-injective}
use mathlib.Core.List.Memᴰ
use mathlib.Core.Path.{subst}
use native.Mathlib.Decide.{ℕ_discrete}
use proxy.Common.{
  ◌≡◌, refl, sym, ap, ◌∙◌, ◌⊎◌, inl, inr, Option, none, some, List, [], ◌∷◌, ◌++◌, Option-cases,
  Memᴰ-append, Memᴰ-append_left, Memᴰ-append_right,
}
use proxy.Common.Text.{Str}
use proxy.Ir.{PathMatch}
use proxy.Compile.Types.{ArcPlan, NodePlans, PathTrieNode}
use proxy.Compile.Request.{Headers}
use proxy.Compile.Discriminator.{resolve_node_plans}
use proxy.Compile.Trie.{
  split_path, no_plans, walk_or_create, push_prefix, push_exact, insert_at, insert_plan_into_trie,
  insert_plans, node_plans, node_children, get_child, walk,
}
use proxy.Compile.Trie.Address.{
  plans_at, plans_at-cons_none, plans_at-cons_some, plans_at-walk_or_create,
  plans_at-walk_or_create_ne, all_plans, address,
}

segments-discrete : Discrete (List Str)
segments-discrete = hlevel ℕ_discrete

-- A change of a node that adds one plan and no discriminator.
record Adds (p : ArcPlan) (change : NodePlans → NodePlans) : Type 0 where
  back :
      (node : NodePlans) (q : ArcPlan)
      → Memᴰ q (all_plans (change node))
      → Memᴰ q (all_plans node) ⊎ (q ≡ p)
  keeps :
      (node : NodePlans) (q : ArcPlan) → Memᴰ q (all_plans node) → Memᴰ q (all_plans (change node))
  adds : (node : NodePlans) → Memᴰ p (all_plans (change node))
  bare : (node : NodePlans) → (change node).discriminator ≡ node.discriminator

mem-one : {p q : ArcPlan} → Memᴰ q (p ∷ []) → q ≡ p
mem-one h = elim (Memᴰ.cases_cons h) [ inl e ↦ e | inr k ↦ elim k [ ] ]

push_prefix-Adds : (p : ArcPlan) → Adds p (push_prefix p)
push_prefix-Adds p = record {
  back = λ node q h. elim (Memᴰ-append (node.prefix_plans ++ p ∷ []) node.exact_plans h) [
    | inl m ↦ elim (Memᴰ-append node.prefix_plans _ m) [
      | inl k ↦ inl (Memᴰ-append_left node.prefix_plans _ k)
      | inr k ↦ inr (mem-one k)
    ]
    | inr m ↦ inl (Memᴰ-append_right node.prefix_plans _ m)
  ];
  keeps = λ node q h. elim (Memᴰ-append node.prefix_plans node.exact_plans h) [
    | inl m ↦ Memᴰ-append_left _ _ (Memᴰ-append_left node.prefix_plans _ m)
    | inr m ↦ Memᴰ-append_right (node.prefix_plans ++ p ∷ []) _ m
  ];
  adds = λ node. Memᴰ-append_left _ _ (Memᴰ-append_right node.prefix_plans _ (Memᴰ.head refl));
  bare = λ node. refl;
}

push_exact-Adds : (p : ArcPlan) → Adds p (push_exact p)
push_exact-Adds p = record {
  back = λ node q h. elim (Memᴰ-append node.prefix_plans (node.exact_plans ++ p ∷ []) h) [
    | inl m ↦ inl (Memᴰ-append_left node.prefix_plans _ m)
    | inr m ↦ elim (Memᴰ-append node.exact_plans _ m) [
      | inl k ↦ inl (Memᴰ-append_right node.prefix_plans _ k)
      | inr k ↦ inr (mem-one k)
    ]
  ];
  keeps = λ node q h. elim (Memᴰ-append node.prefix_plans node.exact_plans h) [
    | inl m ↦ Memᴰ-append_left node.prefix_plans _ m
    | inr m ↦ Memᴰ-append_right node.prefix_plans _ (Memᴰ-append_left node.exact_plans _ m)
  ];
  adds = λ node.
      Memᴰ-append_right node.prefix_plans _ (Memᴰ-append_right node.exact_plans _ (Memᴰ.head refl));
  bare = λ node. refl;
}

-- One insertion at the address `b`, seen from the address `a`.
module _ {p : ArcPlan} {change : NodePlans → NodePlans} (h : Adds p change) where
  changed_back :
      (a b : List Str) (t : PathTrieNode) (q : ArcPlan)
      → Memᴰ q (all_plans (plans_at a (walk_or_create b change t)))
      → Memᴰ q (all_plans (plans_at a t)) ⊎ ((q ≡ p) × (b ≡ a))
  changed_back a b t q m = elim (segments-discrete b a) [
    | yes e ↦
        let m' : Memᴰ q (all_plans (change (plans_at a t))) =
          subst (λ n. Memᴰ q (all_plans n))
            (ap (λ c. plans_at a (walk_or_create c change t)) e
              ∙ plans_at-walk_or_create a change t)
            m in
        elim (h.back (plans_at a t) q m') [ inl k ↦ inl k | inr k ↦ inr (k, e) ]
    | no ne ↦ inl (rw (plans_at-walk_or_create_ne b a change t ne) at m)
  ]

  changed_keeps :
      (a b : List Str) (t : PathTrieNode) (q : ArcPlan)
      → Memᴰ q (all_plans (plans_at a t))
      → Memᴰ q (all_plans (plans_at a (walk_or_create b change t)))
  changed_keeps a b t q m = elim (segments-discrete b a) [
    | yes e ↦ rw (e, plans_at-walk_or_create a change t) (h.keeps (plans_at a t) q m)
    | no ne ↦ rw (plans_at-walk_or_create_ne b a change t ne) m
  ]

  changed_adds :
      (b : List Str) (t : PathTrieNode)
      → Memᴰ p (all_plans (plans_at b (walk_or_create b change t)))
  changed_adds b t = rw (plans_at-walk_or_create b change t) (h.adds (plans_at b t))

  changed_bare :
      (a b : List Str) (t : PathTrieNode)
      → (plans_at a t).discriminator ≡ none
      → (plans_at a (walk_or_create b change t)).discriminator ≡ none
  changed_bare a b t e = elim (segments-discrete b a) [
    | yes s ↦ rw (s, plans_at-walk_or_create a change t) (h.bare (plans_at a t) ∙ e)
    | no ne ↦ rw (plans_at-walk_or_create_ne b a change t ne) e
  ]

insert_back :
    (path : Option PathMatch) (p : ArcPlan) (a : List Str) (t : PathTrieNode) (q : ArcPlan)
    → Memᴰ q (all_plans (plans_at a (insert_at path p t)))
    → Memᴰ q (all_plans (plans_at a t)) ⊎ ((q ≡ p) × (address path ≡ some a))
unfolding insert_at
insert_back (some (PathMatch.prefix s)) p a t q m =
    elim (changed_back (push_prefix-Adds p) a (split_path s) t q m) [
      | inl k ↦ inl k
      | inr k ↦ inr (k.0, ap some k.1)
    ]
insert_back (some (PathMatch.exact s)) p a t q m =
    elim (changed_back (push_exact-Adds p) a (split_path s) t q m) [
      | inl k ↦ inl k
      | inr k ↦ inr (k.0, ap some k.1)
    ]
insert_back (some (PathMatch.regex s)) p a t q m = inl m
insert_back none p a t q m = elim (changed_back (push_prefix-Adds p) a [] t q m) [
  | inl k ↦ inl k
  | inr k ↦ inr (k.0, ap some k.1)
]

insert_keeps :
    (path : Option PathMatch) (p : ArcPlan) (a : List Str) (t : PathTrieNode) (q : ArcPlan)
    → Memᴰ q (all_plans (plans_at a t))
    → Memᴰ q (all_plans (plans_at a (insert_at path p t)))
unfolding insert_at
insert_keeps (some (PathMatch.prefix s)) p a t q m =
    changed_keeps (push_prefix-Adds p) a (split_path s) t q m
insert_keeps (some (PathMatch.exact s)) p a t q m =
    changed_keeps (push_exact-Adds p) a (split_path s) t q m
insert_keeps (some (PathMatch.regex s)) p a t q m = m
insert_keeps none p a t q m = changed_keeps (push_prefix-Adds p) a [] t q m

insert_adds :
    (path : Option PathMatch) (p : ArcPlan) (a : List Str) (t : PathTrieNode)
    → address path ≡ some a
    → Memᴰ p (all_plans (plans_at a (insert_at path p t)))
unfolding insert_at
insert_adds (some (PathMatch.prefix s)) p a t e =
    subst (λ c. Memᴰ p (all_plans (plans_at c (insert_at (some (PathMatch.prefix s)) p t))))
      (some-injective _ _ e) (changed_adds (push_prefix-Adds p) (split_path s) t)
insert_adds (some (PathMatch.exact s)) p a t e =
    subst (λ c. Memᴰ p (all_plans (plans_at c (insert_at (some (PathMatch.exact s)) p t))))
      (some-injective _ _ e) (changed_adds (push_exact-Adds p) (split_path s) t)
insert_adds (some (PathMatch.regex s)) p a t e = cc
insert_adds none p a t e =
    subst (λ c. Memᴰ p (all_plans (plans_at c (insert_at none p t)))) (some-injective _ _ e)
      (changed_adds (push_prefix-Adds p) [] t)

insert_bare :
    (path : Option PathMatch) (p : ArcPlan) (a : List Str) (t : PathTrieNode)
    → (plans_at a t).discriminator ≡ none
    → (plans_at a (insert_at path p t)).discriminator ≡ none
unfolding insert_at
insert_bare (some (PathMatch.prefix s)) p a t e =
    changed_bare (push_prefix-Adds p) a (split_path s) t e
insert_bare (some (PathMatch.exact s)) p a t e =
    changed_bare (push_exact-Adds p) a (split_path s) t e
insert_bare (some (PathMatch.regex s)) p a t e = e
insert_bare none p a t e = changed_bare (push_prefix-Adds p) a [] t e

-- After the insertion of `plans`, an address has what it had and the plans that belong there.
pub mem-insert_plans :
    (a : List Str) (t : PathTrieNode) (plans : List ArcPlan) (q : ArcPlan)
    → Memᴰ q (all_plans (plans_at a (insert_plans t plans)))
    → Memᴰ q (all_plans (plans_at a t)) ⊎ (Memᴰ q plans × (address q.plan.matches.path ≡ some a))
unfolding insert_plans insert_plan_into_trie
mem-insert_plans a t [] q m = inl m
mem-insert_plans a t (p ∷ plans) q m =
    elim (mem-insert_plans a (insert_at p.plan.matches.path p t) plans q m) [
      | inl k ↦ elim (insert_back p.plan.matches.path p a t q k) [
        | inl old ↦ inl old
        | inr new ↦ inr (
          Memᴰ.head new.0,
          subst (λ (r : ArcPlan). address r.plan.matches.path ≡ some a) (sym new.0) new.1,
        )
      ]
      | inr k ↦ inr (Memᴰ.tail k.0, k.1)
    ]

insert_plans_keeps :
    (a : List Str) (t : PathTrieNode) (plans : List ArcPlan) (q : ArcPlan)
    → Memᴰ q (all_plans (plans_at a t))
    → Memᴰ q (all_plans (plans_at a (insert_plans t plans)))
unfolding insert_plans insert_plan_into_trie
insert_plans_keeps a t [] q m = m
insert_plans_keeps a t (p ∷ plans) q m =
    insert_plans_keeps a (insert_at p.plan.matches.path p t) plans q
      (insert_keeps p.plan.matches.path p a t q m)

pub insert_plans-mem :
    (a : List Str) (t : PathTrieNode) (plans : List ArcPlan) (q : ArcPlan)
    → Memᴰ q plans
    → address q.plan.matches.path ≡ some a
    → Memᴰ q (all_plans (plans_at a (insert_plans t plans)))
unfolding insert_plans insert_plan_into_trie
insert_plans-mem a t [] q m e = elim m [ ]
insert_plans-mem a t (p ∷ plans) q (Memᴰ.head s) e =
    insert_plans_keeps a (insert_at p.plan.matches.path p t) plans q (
      subst
        (λ (r : ArcPlan).
          address r.plan.matches.path ≡ some a
          → Memᴰ r (all_plans (plans_at a (insert_at p.plan.matches.path p t))))
        (sym s) (insert_adds p.plan.matches.path p a t) e)
insert_plans-mem a t (p ∷ plans) q (Memᴰ.tail m) e =
    insert_plans-mem a (insert_at p.plan.matches.path p t) plans q m e

pub insert_plans_bare :
    (a : List Str) (t : PathTrieNode) (plans : List ArcPlan)
    → (plans_at a t).discriminator ≡ none
    → (plans_at a (insert_plans t plans)).discriminator ≡ none
unfolding insert_plans insert_plan_into_trie
insert_plans_bare a t [] e = e
insert_plans_bare a t (p ∷ plans) e =
    insert_plans_bare a (insert_at p.plan.matches.path p t) plans
      (insert_bare p.plan.matches.path p a t e)

module _ (method : Str) (headers : Headers) (query : Option Str) where
  abbrev resolve : NodePlans → List ArcPlan
  resolve = resolve_node_plans method headers query

  not-mem-no_plans : {q : ArcPlan} → Memᴰ q (resolve no_plans) → ⊥
  unfolding resolve_node_plans
  not-mem-no_plans h = elim h [ ]

  -- A candidate comes from a node on the way.
  pub mem-walk :
      (segments : List Str) (node : PathTrieNode) (q : ArcPlan)
      → Memᴰ q (walk method headers query segments node)
      → (a b : List Str) × (segments ≡ a ++ b) × Memᴰ q (resolve (plans_at a node))
  unfolding walk
  mem-walk [] node q m = ([], [], refl, unfold plans_at in m)
  mem-walk (s ∷ segments) node q m = elim (Memᴰ-append (resolve (node_plans node)) _ m) [
    | inl k ↦ ([], s ∷ segments, refl, unfold plans_at in k)
    | inr k ↦ elim (Option-cases (get_child s (node_children node))) [
      | inl e ↦ elim (rw e at k) [ ]
      | inr (next, e) ↦
          let (a, b, same, k') = mem-walk segments next q (rw e at k) in
          (
            s ∷ a,
            b,
            ap (λ t. s ∷ t) same,
            subst (λ n. Memᴰ q (resolve n)) (sym (plans_at-cons_some s a node e)) k',
          )
    ]
  ]

  pub walk-mem :
      (a b : List Str) (node : PathTrieNode) (q : ArcPlan)
      → Memᴰ q (resolve (plans_at a node))
      → Memᴰ q (walk method headers query (a ++ b) node)
  unfolding walk
  walk-mem [] [] node q m = unfold plans_at in m
  walk-mem [] (t ∷ b) node q m =
      Memᴰ-append_left (resolve (node_plans node)) _ (unfold plans_at in m)
  walk-mem (s ∷ a) b node q m =
      Memᴰ-append_right (resolve (node_plans node)) _
        (elim (Option-cases (get_child s (node_children node))) [
          | inl e ↦
              absurd (
                not-mem-no_plans
                  (subst (λ n. Memᴰ q (resolve n)) (plans_at-cons_none s a node e) m))
          | inr (next, e) ↦ rw e (
              walk-mem a b next q
                (subst (λ n. Memᴰ q (resolve n)) (plans_at-cons_some s a node e) m))
        ])
