-- ===== src/Gateway/Namespaces.antt =====
-- src/gateway/translate/hostnames.rs and src/gateway/reconcile/parent.rs: which routes a listener
-- allows, by namespace and by kind. A map of labels is an association list.
use proxy.Common.{
  ◌≡◌, ◌↔◌, refl, ap, ◌⊎◌, inl, inr, Bool, true, false, ◌&&◌, ◌||◌, Option, none, some, List, [],
  ◌∷◌, arith, any, all, All, ◌∙◌, is_some_and, Option-cases, &&-split,
}
use proxy.Common.Text.{Str, str_eq, str_eq_iff, str_eq_refl, is_empty}
use proxy.Common.HashMap.{get}

pub data NamespaceFrom : Type 0 where
  same all_ selector none_ : NamespaceFrom

pub record RouteNamespaces : Type 0 where
  pub from : NamespaceFrom
  pub selector : Option (List (Str × Str))

pub record RouteGroupKind : Type 0 where
  pub group : Str
  pub kind : Str

pub record AllowedRoutes : Type 0 where
  pub kinds : List RouteGroupKind
  pub namespaces : RouteNamespaces

unfoldable pub listener_allows_kind : AllowedRoutes → Str → Str → Bool
listener_allows_kind allowed group kind =
    is_empty allowed.kinds
    || any (λ (k : RouteGroupKind). str_eq k.group group && str_eq k.kind kind) allowed.kinds

-- `labels.get(k) == Some(v)`.
abbrev pub has_label : List (Str × Str) → Str × Str → Bool
has_label labels (k, v) = is_some_and (λ w. str_eq w v) (get k labels)

abbrev pub selects : Option (List (Str × Str)) → Option (List (Str × Str)) → Bool
selects pairs none = false
selects pairs (some labels) = is_some_and (λ sel. all (λ e. has_label labels e) sel) pairs

abbrev pub allowed_from :
    NamespaceFrom → Option (List (Str × Str)) → Str → Str → List (Str × List (Str × Str)) → Bool
allowed_from NamespaceFrom.all_ pairs route_ns gateway_ns namespace_labels = true
allowed_from NamespaceFrom.same pairs route_ns gateway_ns namespace_labels =
    str_eq route_ns gateway_ns
allowed_from NamespaceFrom.none_ pairs route_ns gateway_ns namespace_labels = false
allowed_from NamespaceFrom.selector pairs route_ns gateway_ns namespace_labels =
    selects pairs (get route_ns namespace_labels)

unfoldable pub namespace_allowed :
    RouteNamespaces → Str → Str → List (Str × List (Str × Str)) → Bool
namespace_allowed namespaces route_ns gateway_ns namespace_labels =
    allowed_from namespaces.from namespaces.selector route_ns gateway_ns namespace_labels

-- The labels of a namespace have every pair of a selector.
abbrev pub HasAll : List (Str × Str) → List (Str × Str) → Type 0
HasAll labels sel = All (λ (e : Str × Str). get e.0 labels ≡ some e.1) sel

has_label_sound :
    (labels : List (Str × Str)) (e : Str × Str)
    → has_label labels e ≡ true
    → get e.0 labels ≡ some e.1
has_label_sound labels e h = elim (Option-cases (get e.0 labels)) [
  | inl k ↦ absurd (ground (arith, h, k))
  | inr (w, k) ↦ k ∙ ap (λ x. some x) ((str_eq_iff w e.1).0 (ground (arith, h, k)))
]

all_sound :
    (labels sel : List (Str × Str)) → all (λ e. has_label labels e) sel ≡ true → HasAll labels sel
all_sound labels [] h = tt
all_sound labels (e ∷ sel) h =
    let (a, b) = &&-split (has_label labels e) _ h in
    (has_label_sound labels e a, all_sound labels sel b)

all_complete :
    (labels sel : List (Str × Str)) → HasAll labels sel → all (λ e. has_label labels e) sel ≡ true
all_complete labels [] h = refl
all_complete labels (e ∷ sel) (a, b) = rw (a, str_eq_refl e.1, all_complete labels sel b) refl

-- What a selector asks of the labels that are known of a namespace.
abbrev pub Selected : Option (List (Str × Str)) → Option (List (Str × Str)) → Type 0
Selected pairs known =
    (sel labels : List (Str × Str)) × (pairs ≡ some sel) × (known ≡ some labels) × HasAll labels sel

selects_sound :
    (pairs known : Option (List (Str × Str))) → selects pairs known ≡ true → Selected pairs known
selects_sound pairs none h = ground arith
selects_sound none (some labels) h = ground arith
selects_sound (some sel) (some labels) h = (sel, labels, refl, refl, all_sound labels sel h)

selects_complete :
    (pairs known : Option (List (Str × Str))) → Selected pairs known → selects pairs known ≡ true
selects_complete pairs known (sel, labels, e, k, a) = rw (e, k) (all_complete labels sel a)

allowed_from_iff :
    (from : NamespaceFrom) (pairs : Option (List (Str × Str))) (route_ns gateway_ns : Str)
    (labels : List (Str × List (Str × Str)))
    → (allowed_from from pairs route_ns gateway_ns labels ≡ true) ↔ (
        (from ≡ NamespaceFrom.all_)
        ⊎ (((from ≡ NamespaceFrom.same) × (route_ns ≡ gateway_ns))
            ⊎ ((from ≡ NamespaceFrom.selector) × Selected pairs (get route_ns labels))))
allowed_from_iff NamespaceFrom.all_ pairs route_ns gateway_ns labels = (λ h. inl refl, λ h. refl)
allowed_from_iff NamespaceFrom.same pairs route_ns gateway_ns labels = (
  λ h. inr (inl (refl, (str_eq_iff route_ns gateway_ns).0 h)),
  λ h. elim h [
    | inl e ↦ cc
    | inr (inl (e, k)) ↦ (str_eq_iff route_ns gateway_ns).1 k
    | inr (inr (e, k)) ↦ cc
  ],
)
allowed_from_iff NamespaceFrom.none_ pairs route_ns gateway_ns labels =
    (λ h. ground arith, λ h. elim h [ inl e ↦ cc | inr (inl (e, k)) ↦ cc | inr (inr (e, k)) ↦ cc ])
allowed_from_iff NamespaceFrom.selector pairs route_ns gateway_ns labels = (
  λ h. inr (inr (refl, selects_sound pairs (get route_ns labels) h)),
  λ h. elim h [
    | inl e ↦ cc
    | inr (inl (e, k)) ↦ cc
    | inr (inr (e, k)) ↦ selects_complete pairs (get route_ns labels) k
  ],
)

-- A route's namespace is allowed exactly when the listener allows all namespaces, when it allows its
-- own and the route is in it, or when it has a selector and the labels known of the namespace have
-- every pair of it.
pub namespace_allowed_iff :
    (namespaces : RouteNamespaces) (route_ns gateway_ns : Str)
    (labels : List (Str × List (Str × Str)))
    → (namespace_allowed namespaces route_ns gateway_ns labels ≡ true) ↔ (
        (namespaces.from ≡ NamespaceFrom.all_)
        ⊎ (((namespaces.from ≡ NamespaceFrom.same) × (route_ns ≡ gateway_ns))
            ⊎ ((namespaces.from ≡ NamespaceFrom.selector)
                × Selected namespaces.selector (get route_ns labels))))
unfolding namespace_allowed
namespace_allowed_iff namespaces route_ns gateway_ns labels =
    allowed_from_iff namespaces.from namespaces.selector route_ns gateway_ns labels
