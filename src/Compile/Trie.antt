-- ===== src/Compile/Trie.antt =====
-- src/ir/compile.rs: the path trie of a host, its construction, and the walk of `HostNode::lookup`.
pub mod Address
pub mod Walk
use proxy.Common.{ℕ, Bool, Option, none, some, List, [], ◌∷◌, ◌++◌, filter, not, if◌then◌else◌}
use proxy.Common.Text.{Str, str_eq, split, is_empty}
use proxy.Ir.{PathMatch}
use proxy.Compile.Types.{ArcPlan, NodePlans, PathTrieNode, trie_node, Children, no_child, child}
use proxy.Compile.Request.{Headers}
use proxy.Compile.Discriminator.{add_discriminator, resolve_node_plans}

unfoldable pub split_path : Str → List Str
split_path path = filter (λ s. not (is_empty s)) (split b'/' path)

abbrev pub no_plans : NodePlans
no_plans = record { prefix_plans = []; exact_plans = []; discriminator = none }

-- `PathTrieNode::default()`.
abbrev pub empty_node : PathTrieNode
empty_node = trie_node no_child no_plans

-- `children.entry(segment).or_default()`, and a change of the node there.
update_child : Str → (PathTrieNode → PathTrieNode) → Children → Children
update_child segment change no_child = child segment (change empty_node) no_child
update_child segment change (child s node rest) =
    if str_eq s segment
    then child s (change node) rest
    else child s node (update_child segment change rest)

-- `walk_or_create`, and a change of the plans of the node reached.
pub walk_or_create : List Str → (NodePlans → NodePlans) → PathTrieNode → PathTrieNode
walk_or_create [] change (trie_node cs plans) = trie_node cs (change plans)
walk_or_create (segment ∷ segments) change (trie_node cs plans) =
    trie_node (update_child segment (walk_or_create segments change) cs) plans

abbrev pub push_prefix : ArcPlan → NodePlans → NodePlans
push_prefix p node = record node { prefix_plans = node.prefix_plans ++ p ∷ [] }

abbrev pub push_exact : ArcPlan → NodePlans → NodePlans
push_exact p node = record node { exact_plans = node.exact_plans ++ p ∷ [] }

pub insert_at : Option PathMatch → ArcPlan → PathTrieNode → PathTrieNode
insert_at (some (PathMatch.prefix s)) p trie = walk_or_create (split_path s) (push_prefix p) trie
insert_at (some (PathMatch.exact s)) p trie = walk_or_create (split_path s) (push_exact p) trie
insert_at (some (PathMatch.regex _)) p trie = trie
insert_at none p trie = walk_or_create [] (push_prefix p) trie

-- The source wraps the result in `Ok(())`, in every case.
unfoldable pub insert_plan_into_trie : PathTrieNode → ArcPlan → PathTrieNode
unfolding insert_at walk_or_create update_child
insert_plan_into_trie trie p = insert_at p.plan.matches.path p trie

unfoldable pub insert_plans : PathTrieNode → List ArcPlan → PathTrieNode
unfolding insert_plan_into_trie
insert_plans trie [] = trie
insert_plans trie (p ∷ plans) = insert_plans (insert_plan_into_trie trie p) plans

unfoldable mutual
  unfolding add_discriminator

  pub build_discriminators : (List (Str × ℕ) → List (Str × ℕ)) → PathTrieNode → PathTrieNode
  build_discriminators iter (trie_node cs plans) =
      trie_node (build_children iter cs) (add_discriminator iter plans)

  pub build_children : (List (Str × ℕ) → List (Str × ℕ)) → Children → Children
  build_children iter no_child = no_child
  build_children iter (child s node rest) =
      child s (build_discriminators iter node) (build_children iter rest)

abbrev pub node_plans : PathTrieNode → NodePlans
node_plans (trie_node cs plans) = plans

abbrev pub node_children : PathTrieNode → Children
node_children (trie_node cs plans) = cs

unfoldable pub get_child : Str → Children → Option PathTrieNode
get_child segment no_child = none
get_child segment (child s node rest) =
    if str_eq s segment then some node else get_child segment rest

module _ (method : Str) (headers : Headers) (query : Option Str) where
  -- The candidates of the root and of each node along the segments.
  unfoldable pub walk : List Str → PathTrieNode → List ArcPlan
  walk [] node = resolve_node_plans method headers query (node_plans node)
  walk (segment ∷ segments) node =
      resolve_node_plans method headers query (node_plans node)
      ++ elim (get_child segment (node_children node)) [
        | none ↦ []
        | some next ↦ walk segments next
      ]
