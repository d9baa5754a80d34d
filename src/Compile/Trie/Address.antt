-- ===== src/Compile/Trie/Address.antt =====
-- The plans that stand at an address of the trie, after insertion and after the discriminators.

use mathlib.Core.Path.{ap₂}
use mathlib.Core.Option
use proxy.Common.{
  ℕ, ◌≡◌, refl, sym, ap, ◌∙◌, ◌≢◌, inl, inr, Option, none, some, List, [], ◌∷◌, ◌++◌, arith,
  Bool-cases, if◌then◌else◌, Option-cases, unwrap_or,
}
use proxy.Common.Text.{Str, str_eq, str_eq_iff, str_eq_refl}
use proxy.Ir.{PathMatch}
use proxy.Compile.Types.{ArcPlan, NodePlans, PathTrieNode, trie_node, Children, no_child, child}
use proxy.Compile.Discriminator.{add_discriminator}
use proxy.Compile.Trie.{
  split_path, no_plans, empty_node, update_child, walk_or_create, build_discriminators,
  build_children, node_plans, node_children, get_child,
}

-- The plans of the node at an address, none where the trie has no such node.
unfoldable pub plans_at : List Str → PathTrieNode → NodePlans
plans_at [] node = node_plans node
plans_at (segment ∷ segments) node = elim (get_child segment (node_children node)) [
  | none ↦ no_plans
  | some next ↦ plans_at segments next
]

get_child-update_child :
    (k j : Str) (change : PathTrieNode → PathTrieNode) (cs : Children)
    → get_child j (update_child k change cs) ≡ (
        if str_eq k j
        then some (change (unwrap_or empty_node (get_child j cs)))
        else get_child j cs)
unfolding get_child update_child
get_child-update_child k j change no_child = ground arith
get_child-update_child k j change (child s node rest) = ground (
  arith,
  str_eq_iff s k,
  str_eq_iff s j,
  str_eq_iff k j,
  str_eq_refl k,
  get_child-update_child k j change rest,
)

pub plans_at-empty : (a : List Str) → plans_at a empty_node ≡ no_plans
unfolding plans_at get_child
plans_at-empty [] = refl
plans_at-empty (s ∷ a) = refl

pub plans_at-cons_none :
    (s : Str) (a : List Str) (node : PathTrieNode)
    → get_child s (node_children node) ≡ none
    → plans_at (s ∷ a) node ≡ no_plans
unfolding plans_at
plans_at-cons_none s a node e = rw (e, plans_at)

pub plans_at-cons_some :
    (s : Str) (a : List Str) (node : PathTrieNode) {next : PathTrieNode}
    → get_child s (node_children node) ≡ some next
    → plans_at (s ∷ a) node ≡ plans_at a next
unfolding plans_at
plans_at-cons_some s a node e = rw (e, plans_at)

get_child-update_child_self :
    (s : Str) (change : PathTrieNode → PathTrieNode) (cs : Children) {o : Option PathTrieNode}
    → get_child s cs ≡ o
    → get_child s (update_child s change cs) ≡ some (change (unwrap_or empty_node o))
get_child-update_child_self s change cs e =
    rw (get_child-update_child s s change cs, str_eq_refl s, e)

-- A change at an address is seen there.
pub plans_at-walk_or_create :
    (a : List Str) (change : NodePlans → NodePlans) (node : PathTrieNode)
    → plans_at a (walk_or_create a change node) ≡ change (plans_at a node)
unfolding walk_or_create
plans_at-walk_or_create [] change (trie_node cs plans) = unfold plans_at in refl
plans_at-walk_or_create (s ∷ a) change (trie_node cs plans) = elim (Option-cases (get_child s cs)) [
  | inl e ↦ rw (plans_at-cons_none _ a (trie_node _ plans) e) (
      plans_at-cons_some _ a (trie_node _ plans)
        (get_child-update_child_self s (walk_or_create a change) cs e)
      ∙ plans_at-walk_or_create a change empty_node
      ∙ ap change (plans_at-empty a))
  | inr (next, e) ↦ rw (plans_at-cons_some _ a (trie_node _ plans) e) (
      plans_at-cons_some _ a (trie_node _ plans)
        (get_child-update_child_self s (walk_or_create a change) cs e)
      ∙ plans_at-walk_or_create a change next)
]

-- And nowhere else.
pub plans_at-walk_or_create_ne :
    (a b : List Str) (change : NodePlans → NodePlans) (node : PathTrieNode)
    → a ≢ b
    → plans_at b (walk_or_create a change node) ≡ plans_at b node
unfolding walk_or_create
plans_at-walk_or_create_ne [] [] change node ne = absurd (ne refl)
plans_at-walk_or_create_ne [] (t ∷ b) change (trie_node cs plans) ne = unfold plans_at in refl
plans_at-walk_or_create_ne (s ∷ a) [] change (trie_node cs plans) ne = unfold plans_at in refl
plans_at-walk_or_create_ne (s ∷ a) (t ∷ b) change (trie_node cs plans) ne =
    elim (Bool-cases (str_eq s t)) [
      | inl e ↦
          let same = (str_eq_iff s t).0 e in
          let ne' : a ≢ b = λ q. ne (ap₂ ◌∷◌ same q) in
          rw same (elim (Option-cases (get_child t cs)) [
            | inl m ↦
                plans_at-cons_some _ b (trie_node _ plans)
                  (get_child-update_child_self t (walk_or_create a change) cs m)
                ∙ plans_at-walk_or_create_ne a b change empty_node ne'
                ∙ plans_at-empty b
                ∙ sym (plans_at-cons_none _ b (trie_node _ plans) m)
            | inr (next, m) ↦
                plans_at-cons_some _ b (trie_node _ plans)
                  (get_child-update_child_self t (walk_or_create a change) cs m)
                ∙ plans_at-walk_or_create_ne a b change next ne'
                ∙ sym (plans_at-cons_some _ b (trie_node _ plans) m)
          ])
      | inr e ↦
          let kept : get_child t (update_child s (walk_or_create a change) cs) ≡ get_child t cs =
            rw (get_child-update_child s t (walk_or_create a change) cs, e) in
          elim (Option-cases (get_child t cs)) [
            | inl m ↦
                plans_at-cons_none _ b (trie_node _ plans) (kept ∙ m)
                ∙ sym (plans_at-cons_none _ b (trie_node _ plans) m)
            | inr (next, m) ↦
                plans_at-cons_some _ b (trie_node _ plans) (kept ∙ m)
                ∙ sym (plans_at-cons_some _ b (trie_node _ plans) m)
          ]
    ]

get_child-build_children :
    (iter : List (Str × ℕ) → List (Str × ℕ)) (s : Str) (cs : Children)
    → get_child s (build_children iter cs) ≡ Option.map (build_discriminators iter) (get_child s cs)
unfolding get_child build_children
get_child-build_children iter s no_child = refl
get_child-build_children iter s (child t node rest) = elim (Bool-cases (str_eq t s)) [
  | inl e ↦ rw e
  | inr e ↦ rw e (get_child-build_children iter s rest)
]

-- `build_discriminators` adds to each node the discriminator of its plans.
pub plans_at-build_discriminators :
    (iter : List (Str × ℕ) → List (Str × ℕ)) (a : List Str) (node : PathTrieNode)
    → plans_at a (build_discriminators iter node) ≡ add_discriminator iter (plans_at a node)
unfolding build_discriminators add_discriminator
plans_at-build_discriminators iter [] (trie_node cs plans) = unfold plans_at in refl
plans_at-build_discriminators iter (s ∷ a) (trie_node cs plans) =
    elim (Option-cases (get_child s cs)) [
      | inl e ↦
          plans_at-cons_none _ a (trie_node _ (add_discriminator iter plans))
            (get_child-build_children iter s cs ∙ ap (Option.map (build_discriminators iter)) e)
          ∙ ap (add_discriminator iter) (sym (plans_at-cons_none _ a (trie_node _ plans) e))
      | inr (next, e) ↦
          plans_at-cons_some _ a (trie_node _ (add_discriminator iter plans))
            (get_child-build_children iter s cs ∙ ap (Option.map (build_discriminators iter)) e)
          ∙ plans_at-build_discriminators iter a next
          ∙ ap (add_discriminator iter) (sym (plans_at-cons_some _ a (trie_node _ plans) e))
    ]

abbrev pub all_plans : NodePlans → List ArcPlan
all_plans node = node.prefix_plans ++ node.exact_plans

-- Where a plan belongs in the trie.
abbrev pub address : Option PathMatch → Option (List Str)
address (some (PathMatch.prefix s)) = some (split_path s)
address (some (PathMatch.exact s)) = some (split_path s)
address (some (PathMatch.regex _)) = none
address none = some []
