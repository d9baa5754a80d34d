-- ===== src/Gateway/ToIr/Rules.antt =====
-- Where a rule of an entry comes from: a rule of a route and one of its matches.
use mathlib.Core.List.{Memᴰ}
use mathlib.Core.Path.{subst}
use proxy.Common.{
  map_sound, Bool-cases, Memᴰ-if, ℕ, suc, ◌+◌, ◌≡◌, refl, sym, ap, ◌∙◌, inl, inr, Bool, true, false,
  Option, some, List, [], ◌∷◌, ◌++◌, map, arith, flat_map, if◌then◌else◌, Memᴰ-append,
  flat_map_sound, get_elem?,
}
use proxy.Common.Text.{Str, codes, is_empty}
use proxy.Ir
use proxy.Gateway.Model.{GatewayView}
use proxy.Gateway.Model.Routing.{HttpRouteRule, HttpRouteState, GrpcRouteRule, GrpcRouteState}
use proxy.Gateway.Effective.{EffectiveHostname, compute_effective_hostnames}
use proxy.Gateway.Http.{unprogrammed_rule, translate_rule_to_ir}
use proxy.Gateway.Grpc.{translate_grpc_rule_to_ir}
use proxy.Gateway.ToIr.{
  http_rules, grpc_rules, default_http_rules, default_grpc_rules, or_default, rules_of_http,
  rules_of_grpc, http_hostnames, grpc_hostnames,
}
use proxy.Gateway.ToIr.Translation.{
  Translation, IsTranslation, http_translation, grpc_translation, http_translation-IsTranslation,
  grpc_translation-IsTranslation,
}
use proxy.Gateway.ToIr.Groups.{Entry, with_rules, http_entries, grpc_entries, entries}

-- The effective host name of an HTTPRoute or a GRPCRoute that an entry is of.
pub data IsOf (view : GatewayView) (e : Entry) : Type 0 where
  http :
      (r : HttpRouteState)
      → Memᴰ r view.http_routes
      → Memᴰ e.0 (compute_effective_hostnames view (http_hostnames r) (codes "HTTPRoute"))
      → e.1 ≡ rules_of_http r e.0
      → IsOf view e
  grpc :
      (r : GrpcRouteState)
      → Memᴰ r view.grpc_routes
      → Memᴰ e.0 (compute_effective_hostnames view (grpc_hostnames r) (codes "GRPCRoute"))
      → e.1 ≡ rules_of_grpc r e.0
      → IsOf view e

no_entry : (e : Entry) → Memᴰ e [] → Memᴰ e.0 []
no_entry e m = elim m [ ]

entry_of :
    (b : Bool) (f : EffectiveHostname → List Ir.Rule) (effs : List EffectiveHostname) (e : Entry)
    → Memᴰ e (if b then [] else map (with_rules f) effs)
    → Memᴰ e.0 effs × (e.1 ≡ f e.0)
entry_of true f effs e m = elim m [ ]
entry_of false f effs e m =
    let (x, mx, q) = map_sound (with_rules f) effs m in
    (
      subst (λ y. Memᴰ y effs) (sym (ap (λ (z : Entry). z.0) q)) mx,
      ap (λ (z : Entry). z.1) q ∙ ap f (sym (ap (λ (z : Entry). z.0) q)),
    )

pub entries-IsOf : (view : GatewayView) (e : Entry) → Memᴰ e (entries view) → IsOf view e
entries-IsOf view e m =
    elim (Memᴰ-append (flat_map (http_entries view) view.http_routes)
      (flat_map (grpc_entries view) view.grpc_routes) m) [
        | inl k ↦
            let (r, mr, q) = flat_map_sound (http_entries view) view.http_routes k in
            let (me, eq) = entry_of (is_empty r.parent_refs) (rules_of_http r) _ e q in
            IsOf.http r mr me eq
        | inr k ↦
            let (r, mr, q) = flat_map_sound (grpc_entries view) view.grpc_routes k in
            let (me, eq) = entry_of (is_empty r.parent_refs) (rules_of_grpc r) _ e q in
            IsOf.grpc r mr me eq
      ]

module _ {A : Type 0} (t : Translation A) where
  -- What a rule of a route makes of one of its matches.
  abbrev pub rule_of : A → ℕ → Ir.RequestMatch → Ir.Rule
  rule_of rule n m = if t.programmed rule then t.build rule m n else unprogrammed_rule n m

  -- The loop over the rules of either kind of route.
  abbrev rules_at_index : A → ℕ → List Ir.Rule
  rules_at_index rule n =
      if t.programmed rule
      then map (λ m. t.build rule m n) (t.matches rule)
      else map (unprogrammed_rule n) (t.matches rule)

  rules_from : ℕ → List A → List Ir.Rule
  rules_from n [] = []
  rules_from n (rule ∷ rules) = rules_at_index rule n ++ rules_from (suc n) rules

  pub record IsRuleOf (rules : List A) (x : Ir.Rule) : Type 0 where
    pub index : ℕ
    pub rule : A
    pub found : get_elem? rules index ≡ some rule
    pub m : Ir.RequestMatch
    pub of_rule : Memᴰ m (t.matches rule)
    pub made : x ≡ rule_of rule index m

  made_of :
      (rule : A) (n : ℕ) {x : Ir.Rule}
      → Memᴰ x (rules_at_index rule n)
      → (m : Ir.RequestMatch) × Memᴰ m (t.matches rule) × (x ≡ rule_of rule n m)
  made_of rule n {x} k = elim (Memᴰ-if (t.programmed rule) _ _ k) [
    | inl (on, q) ↦
        let (m, mm, e) = map_sound (λ m. t.build rule m n) (t.matches rule) q in (m, mm, rw on e)
    | inr (off, q) ↦
        let (m, mm, e) = map_sound (unprogrammed_rule n) (t.matches rule) q in (m, mm, rw off e)
  ]

  rules_from-mem :
      (n : ℕ) (rules : List A) {x : Ir.Rule}
      → Memᴰ x (rules_from n rules)
      → (i : ℕ) × (rule : A) × (get_elem? rules i ≡ some rule)
        × (m : Ir.RequestMatch) × Memᴰ m (t.matches rule)
        × (x ≡ rule_of rule (n + i) m)
  unfolding rules_from
  rules_from-mem n [] k = elim k [ ]
  rules_from-mem n (r ∷ rs) {x} k =
      elim (Memᴰ-append (rules_at_index r n) (rules_from (suc n) rs) k) [
        | inl q ↦
            let (m, mm, e) = made_of r n q in
            let z : n ≡ n + 0 = omega arith in
            (0, r, refl, m, mm, subst (λ j. x ≡ rule_of r j m) z e)
        | inr q ↦
            let (i, rule, f, m, mm, e) = rules_from-mem (suc n) rs q in
            let z : suc n + i ≡ n + suc i = omega arith in
            (suc i, rule, f, m, mm, subst (λ j. x ≡ rule_of rule j m) z e)
      ]

  rules_from-IsRuleOf :
      (rules : List A) (x : Ir.Rule) → Memᴰ x (rules_from 0 rules) → IsRuleOf rules x
  rules_from-IsRuleOf rules x k =
      let (i, rule, f, m, mm, e) = rules_from-mem 0 rules k in
      let z : 0 + i ≡ i = omega arith in
      record {
        index = i;
        rule = rule;
        found = f;
        m = m;
        of_rule = mm;
        made = subst (λ j. x ≡ rule_of rule j m) z e;
      }

  -- Every rule of a route has a match, so a route with rules makes rules: the catch-all is not used.
  rules_at_index-cons :
      (rule : A) (n : ℕ)
      → IsTranslation t
      → (x : Ir.Rule) × (xs : List Ir.Rule) × (rules_at_index rule n ≡ x ∷ xs)
  rules_at_index-cons rule n s =
      let (m, ms, e) = s.has_match rule in
      elim (Bool-cases (t.programmed rule)) [
        | inl on ↦ (t.build rule m n, map (λ k. t.build rule k n) ms, rw (on, e) refl)
        | inr off ↦ (unprogrammed_rule n m, map (unprogrammed_rule n) ms, rw (off, e) refl)
      ]

  rules_from-or_default :
      (n : ℕ) (rule : A) (rules : List A) (d : List Ir.Rule)
      → IsTranslation t
      → or_default (rules_from n (rule ∷ rules)) d ≡ rules_from n (rule ∷ rules)
  unfolding rules_from
  rules_from-or_default n rule rules d s =
      let (x, xs, e) = rules_at_index-cons rule n s in rw e refl

http_rules-rules_from :
    (n : ℕ) (rules : List HttpRouteRule) (cert : Option Str)
    → http_rules n rules cert ≡ rules_from (http_translation cert) n rules
unfolding http_rules translate_rule_to_ir rules_from
http_rules-rules_from n [] cert = refl
http_rules-rules_from n (r ∷ rs) cert =
    ap (λ l. translate_rule_to_ir r n r.programmed cert ++ l)
      (http_rules-rules_from (suc n) rs cert)

grpc_rules-rules_from :
    (n : ℕ) (rules : List GrpcRouteRule) (cert : Option Str)
    → grpc_rules n rules cert ≡ rules_from (grpc_translation cert) n rules
unfolding grpc_rules translate_grpc_rule_to_ir rules_from
grpc_rules-rules_from n [] cert = refl
grpc_rules-rules_from n (r ∷ rs) cert =
    ap (λ l. translate_grpc_rule_to_ir r n r.programmed cert ++ l)
      (grpc_rules-rules_from (suc n) rs cert)

http_default :
    (rules : List HttpRouteRule) (p : Bool) (cert : Option Str)
    → or_default (http_rules 0 rules cert) (default_http_rules p rules cert)
      ≡ rules_from (http_translation cert) 0 rules
http_default [] p cert = unfold http_rules default_http_rules rules_from in refl
http_default (r ∷ rs) p cert =
    ap (λ l. or_default l (default_http_rules p (r ∷ rs) cert))
      (http_rules-rules_from 0 (r ∷ rs) cert)
    ∙ rules_from-or_default (http_translation cert) 0 r rs _ (http_translation-IsTranslation cert)

grpc_default :
    (rules : List GrpcRouteRule) (p : Bool) (cert : Option Str)
    → or_default (grpc_rules 0 rules cert) (default_grpc_rules p rules cert)
      ≡ rules_from (grpc_translation cert) 0 rules
grpc_default [] p cert = unfold grpc_rules default_grpc_rules rules_from in refl
grpc_default (r ∷ rs) p cert =
    ap (λ l. or_default l (default_grpc_rules p (r ∷ rs) cert))
      (grpc_rules-rules_from 0 (r ∷ rs) cert)
    ∙ rules_from-or_default (grpc_translation cert) 0 r rs _ (grpc_translation-IsTranslation cert)

pub rules_of_http-IsRuleOf :
    (r : HttpRouteState) (eff : EffectiveHostname) (x : Ir.Rule)
    → Memᴰ x (rules_of_http r eff)
    → IsRuleOf (http_translation eff.client_cert_id) r.rules x
unfolding rules_of_http
rules_of_http-IsRuleOf r eff x k =
    rules_from-IsRuleOf (http_translation eff.client_cert_id) r.rules x
      (subst (λ l. Memᴰ x l) (http_default r.rules r.programmed eff.client_cert_id) k)

pub rules_of_grpc-IsRuleOf :
    (r : GrpcRouteState) (eff : EffectiveHostname) (x : Ir.Rule)
    → Memᴰ x (rules_of_grpc r eff)
    → IsRuleOf (grpc_translation eff.client_cert_id) r.rules x
unfolding rules_of_grpc
rules_of_grpc-IsRuleOf r eff x k =
    rules_from-IsRuleOf (grpc_translation eff.client_cert_id) r.rules x
      (subst (λ l. Memᴰ x l) (grpc_default r.rules r.programmed eff.client_cert_id) k)
