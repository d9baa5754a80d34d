-- ===== src/Gateway/Grants.antt =====
-- src/gateway/reconcile/refgrant.rs: `GrantIndex::is_permitted`, on the grants of
-- src/gateway/model/view.rs.
use mathlib.Core.List.{Memᴰ}
use proxy.Common.{
  ◌≡◌, ◌↔◌, refl, ap, ◌⊎◌, inl, inr, Bool, true, false, ◌&&◌, Option, none, some, List, arith, any,
  any_sound, any_complete, if◌then◌else◌, Bool-cases, &&-split,
}
use proxy.Common.Text.{Str, str_eq, str_eq_iff, str_eq_refl}

pub record GrantSubject : Type 0 where
  pub group : Str
  pub kind : Str
  pub namespace_ : Option Str
  pub name : Option Str

-- The generation is not read here.
pub record ReferenceGrantState : Type 0 where
  pub namespace_ : Str
  pub name : Str
  pub from : List GrantSubject
  pub to : List GrantSubject

-- `x.as_deref() == Some(s)`.
abbrev pub is_some_of : Str → Option Str → Bool
is_some_of s none = false
is_some_of s (some t) = str_eq t s

-- `x.is_none() || x.as_deref() == Some(s)`.
abbrev pub is_none_or_some_of : Str → Option Str → Bool
is_none_or_some_of s none = true
is_none_or_some_of s (some t) = str_eq t s

module _ (from_ns from_group from_kind to_ns to_group to_kind to_name : Str) where
  abbrev pub from_matches : GrantSubject → Bool
  from_matches f =
      str_eq f.group from_group && (str_eq f.kind from_kind && is_some_of from_ns f.namespace_)

  abbrev pub to_matches : GrantSubject → Bool
  to_matches t =
      str_eq t.group to_group && (str_eq t.kind to_kind && is_none_or_some_of to_name t.name)

  abbrev pub grants_it : ReferenceGrantState → Bool
  grants_it grant =
      str_eq grant.namespace_ to_ns && (any from_matches grant.from && any to_matches grant.to)

  unfoldable pub is_permitted : List ReferenceGrantState → Bool
  is_permitted grants = if str_eq from_ns to_ns then true else any grants_it grants

  -- What a grant says, without the code: it stands in the target's namespace, and it names the
  -- referrer's group, kind and namespace, and the target's group and kind, and its name if any.
  pub record Grants (grant : ReferenceGrantState) : Type 0 where
    pub in_target_ns : grant.namespace_ ≡ to_ns
    pub from : GrantSubject
    pub from_listed : Memᴰ from grant.from
    pub from_group_eq : from.group ≡ from_group
    pub from_kind_eq : from.kind ≡ from_kind
    pub from_ns_eq : from.namespace_ ≡ some from_ns
    pub to : GrantSubject
    pub to_listed : Memᴰ to grant.to
    pub to_group_eq : to.group ≡ to_group
    pub to_kind_eq : to.kind ≡ to_kind
    pub to_name_eq : (to.name ≡ none) ⊎ (to.name ≡ some to_name)

  is_some_of_sound : (s : Str) (o : Option Str) → is_some_of s o ≡ true → o ≡ some s
  is_some_of_sound s none h = ground arith
  is_some_of_sound s (some t) h = ap (λ x. some x) ((str_eq_iff t s).0 h)

  is_none_or_some_of_sound :
      (s : Str) (o : Option Str) → is_none_or_some_of s o ≡ true → (o ≡ none) ⊎ (o ≡ some s)
  is_none_or_some_of_sound s none h = inl refl
  is_none_or_some_of_sound s (some t) h = inr (ap (λ x. some x) ((str_eq_iff t s).0 h))

  is_none_or_some_of_complete :
      (s : Str) (o : Option Str) → (o ≡ none) ⊎ (o ≡ some s) → is_none_or_some_of s o ≡ true
  is_none_or_some_of_complete s o (inl e) = rw e refl
  is_none_or_some_of_complete s o (inr e) = rw (e, str_eq_refl s) refl

  grants_it_sound : (g : ReferenceGrantState) → grants_it g ≡ true → Grants g
  grants_it_sound g h =
      let (ns, rest) = &&-split (str_eq g.namespace_ to_ns) _ h in
      let (hf, ht) = &&-split (any from_matches g.from) _ rest in
      let (f, mf, ef) = any_sound from_matches g.from hf in
      let (fg, fr) = &&-split (str_eq f.group from_group) _ ef in
      let (fk, fn) = &&-split (str_eq f.kind from_kind) _ fr in
      let (t, mt, et) = any_sound to_matches g.to ht in
      let (tg, tr) = &&-split (str_eq t.group to_group) _ et in
      let (tk, tn) = &&-split (str_eq t.kind to_kind) _ tr in
      record {
        in_target_ns = (str_eq_iff _ _).0 ns;
        from = f;
        from_listed = mf;
        from_group_eq = (str_eq_iff _ _).0 fg;
        from_kind_eq = (str_eq_iff _ _).0 fk;
        from_ns_eq = is_some_of_sound from_ns f.namespace_ fn;
        to = t;
        to_listed = mt;
        to_group_eq = (str_eq_iff _ _).0 tg;
        to_kind_eq = (str_eq_iff _ _).0 tk;
        to_name_eq = is_none_or_some_of_sound to_name t.name tn;
      }

  grants_it_complete : (g : ReferenceGrantState) → Grants g → grants_it g ≡ true
  grants_it_complete g k =
      let hf = any_complete from_matches g.from k.from k.from_listed (
        rw
          (
            (str_eq_iff _ _).1 k.from_group_eq,
            (str_eq_iff _ _).1 k.from_kind_eq,
            k.from_ns_eq,
            str_eq_refl from_ns,
          )
          refl) in
      let ht = any_complete to_matches g.to k.to k.to_listed (
        rw ((str_eq_iff _ _).1 k.to_group_eq, (str_eq_iff _ _).1 k.to_kind_eq)
          (is_none_or_some_of_complete to_name k.to.name k.to_name_eq)) in
      rw ((str_eq_iff _ _).1 k.in_target_ns, hf, ht) refl

  -- A reference is permitted exactly when it stays in its namespace or some grant says so.
  pub is_permitted_iff :
      (grants : List ReferenceGrantState)
      → (is_permitted grants ≡ true)
        ↔ ((from_ns ≡ to_ns) ⊎ ((g : ReferenceGrantState) × Memᴰ g grants × Grants g))
  unfolding is_permitted
  is_permitted_iff grants = (
    λ h. elim (Bool-cases (str_eq from_ns to_ns)) [
      | inl e ↦ inl ((str_eq_iff from_ns to_ns).0 e)
      | inr e ↦
          let (g, m, k) = any_sound grants_it grants (rw e at h) in inr (g, m, grants_it_sound g k)
    ],
    λ h. elim h [
      | inl e ↦ rw ((str_eq_iff from_ns to_ns).1 e) refl
      | inr (g, m, k) ↦
          let found = any_complete grants_it grants g m (grants_it_complete g k) in
          ground (arith, found)
    ],
  )
